-- ===== src/Proxy/Host.antt =====
-- src/proxy.rs, `validate_proxy_url`: the part of a proxy URL that is tested for a host.
use mathlib.Core.List.{append_assoc, append-nil}
use wrest.Prelude.Text.{Text, is_empty, contains, split, split_cons}
use wrest.Prelude.{
  ℕ, false, ◌++◌, ◌==◌, List, [], ◌∷◌, ◌≡◌, refl, sym, ap, ◌∙◌, arith, ◌⊎◌, inl, inr, Bool-cases,
  ==_iff,
}
use wrest.Proxy.Entries.{split-no_sep, split-append}
use wrest.Proxy.{first_part, host_part}

-- A text up to the first of a character, and what follows it.
pub record UpTo (sep : ℕ) (s part : Text) : Type 0 where
  pub tail : Text
  pub joined : s ≡ part ++ tail
  pub without : contains sep part ≡ false
  pub then_sep : (tail ≡ []) ⊎ ((t : Text) × (tail ≡ sep ∷ t))

first_part-cons :
    (c : ℕ) (parts : List Text) → first_part (split_cons c parts) ≡ c ∷ first_part parts
first_part-cons c [] = refl
first_part-cons c (p ∷ ps) = refl

split-UpTo : (sep : ℕ) (s : Text) → UpTo sep s (first_part (split sep s))
unfolding split contains
split-UpTo sep [] = record { tail = []; joined = refl; without = refl; then_sep = inl refl }
split-UpTo sep (c ∷ s) = elim (Bool-cases (c == sep)) [
  | inl is ↦ rw (is) (record {
    tail = c ∷ s;
    joined = refl;
    without = refl;
    then_sep = inr (s, ap (λ x. x ∷ s) ((==_iff c sep).0 is));
  })
  | inr other ↦
      let u = split-UpTo sep s in
      rw (other, first_part-cons c (split sep s))
        (record {
          tail = u.tail;
          joined = ap (◌∷◌ c) u.joined;
          without = ground (arith, other, u.without);
          then_sep = u.then_sep;
        })
]

-- A part that is not empty, with no `/` and no `:`, at the end or before one of these.
pub record StartsWithHost (rest : Text) : Type 0 where
  pub host : Text
  pub tail : Text
  pub joined : rest ≡ host ++ tail
  pub nonempty : is_empty host ≡ false
  pub no_slash : contains b'/' host ≡ false
  pub no_colon : contains b':' host ≡ false
  pub ends : (tail ≡ []) ⊎ ((t : Text) × ((tail ≡ b'/' ∷ t) ⊎ (tail ≡ b':' ∷ t)))

contains-append_left : (c : ℕ) (s t : Text) → contains c (s ++ t) ≡ false → contains c s ≡ false
unfolding contains
contains-append_left c [] t h = refl
contains-append_left c (d ∷ s) t h = ground (arith, h, contains-append_left c s t)

-- The end of the host, from the ends of the parts up to `:` and up to `/`.
joined_ends :
    (colon slash : Text)
    → (colon ≡ []) ⊎ ((t : Text) × (colon ≡ b':' ∷ t))
    → (slash ≡ []) ⊎ ((t : Text) × (slash ≡ b'/' ∷ t))
    → (colon ++ slash ≡ [])
      ⊎ ((t : Text) × ((colon ++ slash ≡ b'/' ∷ t) ⊎ (colon ++ slash ≡ b':' ∷ t)))
joined_ends colon slash (inr (t, e)) _ = inr (t ++ slash, inr (ap (λ x. x ++ slash) e))
joined_ends colon slash (inl e) (inl f) = inl (ap (λ x. x ++ slash) e ∙ f)
joined_ends colon slash (inl e) (inr (t, f)) = inr (t, inl (ap (λ x. x ++ slash) e ∙ f))

pub host_part-StartsWithHost :
    (rest : Text) → is_empty (host_part rest) ≡ false → StartsWithHost rest
unfolding host_part
host_part-StartsWithHost rest nonempty =
    let slash = split-UpTo b'/' rest in
    let part = first_part (split b'/' rest) in
    let colon = split-UpTo b':' part in
    record {
      host = host_part rest;
      tail = colon.tail ++ slash.tail;
      joined =
          slash.joined
          ∙ ap (λ x. x ++ slash.tail) colon.joined
          ∙ append_assoc (host_part rest) colon.tail slash.tail;
      nonempty = nonempty;
      no_slash =
          contains-append_left b'/' (host_part rest) colon.tail
            (ap (contains b'/') (sym colon.joined) ∙ slash.without);
      no_colon = colon.without;
      ends = joined_ends colon.tail slash.tail colon.then_sep slash.then_sep;
    }

first_split-whole : (sep : ℕ) (s : Text) → contains sep s ≡ false → first_part (split sep s) ≡ s
first_split-whole sep s h = ap first_part (split-no_sep sep s h)

first_split-append :
    (sep : ℕ) (s rest : Text)
    → contains sep s ≡ false
    → first_part (split sep (s ++ sep ∷ rest)) ≡ s
first_split-append sep s rest h = ap first_part (split-append sep s rest h)

the_other : (c : ℕ) (host : Text) → contains b'/' (c ∷ host) ≡ false → (c == b'/') ≡ false
unfolding contains
the_other c host h = ground (arith, h)

-- Cutting at `/` leaves the host with a part of what follows.
slash_first :
    (host t : Text)
    → contains b'/' host ≡ false
    → (p : Text) × (first_part (split b'/' (host ++ b':' ∷ t)) ≡ host ++ b':' ∷ p)
unfolding split contains
slash_first [] t h = (first_part (split b'/' t), first_part-cons b':' (split b'/' t))
slash_first (c ∷ host) t h =
    let (p, e) = slash_first host t (ground (arith, h)) in
    (p, rw (the_other c host h, first_part-cons c (split b'/' (host ++ b':' ∷ t))) (ap (◌∷◌ c) e))

-- The part that is tested, by how the text goes on after the host.
host_part-cut :
    (host tail : Text)
    → contains b'/' host ≡ false
    → contains b':' host ≡ false
    → (tail ≡ []) ⊎ ((t : Text) × ((tail ≡ b'/' ∷ t) ⊎ (tail ≡ b':' ∷ t)))
    → host_part (host ++ tail) ≡ host
unfolding host_part
host_part-cut host tail no_slash no_colon (inl e) =
    rw (e, append-nil host, first_split-whole b'/' host no_slash)
      (first_split-whole b':' host no_colon)
host_part-cut host tail no_slash no_colon (inr (t, inl e)) =
    rw (e, first_split-append b'/' host t no_slash) (first_split-whole b':' host no_colon)
host_part-cut host tail no_slash no_colon (inr (t, inr e)) =
    let (p, cut) = slash_first host t no_slash in
    rw (e, cut) (first_split-append b':' host p no_colon)

pub StartsWithHost-host_part :
    (rest : Text) → StartsWithHost rest → is_empty (host_part rest) ≡ false
StartsWithHost-host_part rest h =
    ap (λ x. is_empty (host_part x)) h.joined
    ∙ ap is_empty (host_part-cut h.host h.tail h.no_slash h.no_colon h.ends)
    ∙ h.nonempty
