-- ===== src/Response/Collect.antt =====
-- src/response.rs: how the ways of reading a body agree, and how reading ends.
use mathlib.Core.List.{append-nil, append_assoc}
use mathlib.Core.Path.{subst}
use wrest.Error.{Error}
use wrest.Prelude.Result.{Result, ok, err}
use wrest.Prelude.{
  ℕ, ◌+◌, ◌≤◌, Bool, true, false, List, [], ◌∷◌, ◌++◌, Option, none, some, ◌≡◌, refl, sym, ◌∙◌, ap,
  arith, length, concat, inl, inr, ◌⊎◌, leb, length-append,
}
use wrest.Response.Chunk.{
  Read, chunk, race_read, settle_read, bytes_stream, collect_loop, collect_body, join_parts,
  consumed_error,
}
use wrest.Response.Types.{Response}
use wrest.WinHttp.Write.{usize_max}

-- All bytes of the items of a stream, in order.
abbrev pub stream_bytes : List (Result Error (List ℕ)) → List ℕ
stream_bytes [] = []
stream_bytes (ok chunk_bytes ∷ items) = chunk_bytes ++ stream_bytes items
stream_bytes (err e ∷ items) = stream_bytes items

-- The first error of the items, or else all of their bytes when the stream has ended.
abbrev pub gathered : List ℕ → List (Result Error (List ℕ)) × Bool → Option (Result Error (List ℕ))
gathered before ([], true) = some (ok before)
gathered before ([], false) = none
gathered before (ok found ∷ items, ended) = gathered (before ++ found) (items, ended)
gathered before (err e ∷ items, ended) = some (err e)

join_parts-concat : (parts : List (List ℕ)) → join_parts parts ≡ concat parts
unfolding join_parts
join_parts-concat [] = refl
join_parts-concat (first ∷ []) = sym (append-nil first)
join_parts-concat (first ∷ second ∷ rest) = refl

concat-snoc :
    (parts : List (List ℕ)) (last : List ℕ) → concat (parts ++ (last ∷ [])) ≡ concat parts ++ last
concat-snoc [] last = append-nil last
concat-snoc (first ∷ parts) last =
    ap (λ t. first ++ t) (concat-snoc parts last) ∙ sym (append_assoc first (concat parts) last)

-- The lengths that `collect_loop` adds up do not pass `usize::MAX`.
abbrev pub Fits : List ℕ → List (Result Error (List ℕ)) × Bool → Type 0
Fits before stream = length before + length (stream_bytes stream.0) ≤ usize_max

-- The statement at some reads, for every state of the loop.
abbrev Agrees : Type 0 → List Read → Type 0
Agrees H reads =
    (parts : List (List ℕ)) (total : ℕ) (r : Response H)
    → total ≡ length (concat parts)
    → Fits (concat parts) (bytes_stream r reads)
    → (collect_loop parts total r reads).1 ≡ gathered (concat parts) (bytes_stream r reads)

module _ {H : Type 0} where
  stream_chunk :
      (r : Response H) (read : Read) (reads : List Read) (found : List ℕ)
      → (chunk r read).1 ≡ ok (some found)
      → bytes_stream r (read ∷ reads) ≡ (
        ok found ∷ (bytes_stream (chunk r read).0 reads).0,
        (bytes_stream (chunk r read).0 reads).1,
      )
  unfolding bytes_stream
  stream_chunk r read reads found is = rw (is, bytes_stream) refl

  collect_chunk :
      (parts : List (List ℕ)) (total : ℕ) (r : Response H) (read : Read) (reads : List Read)
      (found : List ℕ)
      → (chunk r read).1 ≡ ok (some found)
      → total + length found ≤ usize_max
      → collect_loop parts total r (read ∷ reads)
        ≡ collect_loop (parts ++ (found ∷ [])) (total + length found) (chunk r read).0 reads
  unfolding collect_loop
  collect_chunk parts total r read reads found is small =
      let within : leb (total + length found) usize_max ≡ true = ground arith in
      rw (is, collect_loop) (rw within refl)

  chunk-Agrees :
      (reads : List Read) (read : Read) (found : List ℕ) (parts : List (List ℕ)) (total : ℕ)
      (r : Response H)
      → Agrees H reads
      → (chunk r read).1 ≡ ok (some found)
      → total ≡ length (concat parts)
      → Fits (concat parts) (bytes_stream r (read ∷ reads))
      → (collect_loop parts total r (read ∷ reads)).1
        ≡ gathered (concat parts) (bytes_stream r (read ∷ reads))
  chunk-Agrees reads read found parts total r ih is sums fits =
      let stream = stream_chunk r read reads found is in
      let fits' : Fits (concat parts) (
        ok found ∷ (bytes_stream (chunk r read).0 reads).0,
        (bytes_stream (chunk r read).0 reads).1,
      ) =
        subst (λ (t : List (Result Error (List ℕ)) × Bool). Fits (concat parts) t) stream fits in
      let here = length-append found (stream_bytes (bytes_stream (chunk r read).0 reads).0) in
      let sum = length-append (concat parts) found in
      let snoc = concat-snoc parts found in
      let lengths = ap (λ (t : List ℕ). length t) snoc in
      ap (λ (t : Response H × Option (Result Error (List ℕ))). t.1)
        (collect_chunk parts total r read reads found is (omega arith))
      ∙ ih (parts ++ (found ∷ [])) (total + length found) (chunk r read).0 (omega arith)
          (omega arith)
      ∙ ap (λ (t : List ℕ). gathered t (bytes_stream (chunk r read).0 reads)) snoc
      ∙ ap (λ (t : List (Result Error (List ℕ)) × Bool). gathered (concat parts) t) (sym stream)

  collect_loop-gathered : (reads : List Read) → Agrees H reads
  unfolding collect_loop bytes_stream
  collect_loop-gathered [] parts total r sums fits = refl
  collect_loop-gathered (read ∷ reads) parts total r sums fits =
      by_item (collect_loop-gathered reads) (chunk r read).1 refl
    where
      by_item :
          Agrees H reads
          → (item : Result Error (Option (List ℕ))) → (chunk r read).1 ≡ item
          → (collect_loop parts total r (read ∷ reads)).1
            ≡ gathered (concat parts) (bytes_stream r (read ∷ reads))
      by_item ih (err e) is = rw (is, collect_loop, bytes_stream) refl
      by_item ih (ok none) is =
          rw (is, collect_loop, bytes_stream) (ap (λ t. some (ok t)) (join_parts-concat parts))
      by_item ih (ok (some found)) is = chunk-Agrees reads read found parts total r ih is sums fits

  -- Collecting the body gives all bytes of the chunks that the stream of the same response yields, in
  -- order and none lost or doubled, when the stream ends without an error, and otherwise the first error
  -- of the stream; it waits as long as the stream waits. The condition is that the chunks together have at
  -- most `usize::MAX` bytes.
  pub collect_body-gathered :
      (reads : List Read) (r : Response H)
      → length (stream_bytes (bytes_stream r reads).0) ≤ usize_max
      → (collect_body r reads).1 ≡ gathered [] (bytes_stream r reads)
  unfolding collect_body
  collect_body-gathered reads r fits = collect_loop-gathered reads [] 0 r refl (omega arith)

  consumed :
      (r : Response H) (later : Read) → r.raw ≡ none → chunk r later ≡ (r, err consumed_error)
  unfolding chunk
  consumed r later gone = ground arith

  raw_at_end :
      (r : Response H) (read : Read) → (chunk r read).1 ≡ ok none → (chunk r read).0.raw ≡ none
  unfolding chunk settle_read
  raw_at_end r read ended = ground arith

  raw_at_timeout :
      (r : Response H) (read : Read)
      → race_read r.deadline read ≡ none
      → (chunk r read).0.raw ≡ none
  unfolding chunk settle_read
  raw_at_timeout r read late = ground arith

  -- After a chunk that is the end of the body or that times out, every later read fails as already consumed
  -- and changes nothing.
  pub chunk_after_end :
      (r : Response H) (read later : Read)
      → ((chunk r read).1 ≡ ok none) ⊎ (race_read r.deadline read ≡ none)
      → chunk (chunk r read).0 later ≡ ((chunk r read).0, err consumed_error)
  chunk_after_end r read later (inl ended) =
      consumed (chunk r read).0 later (raw_at_end r read ended)
  chunk_after_end r read later (inr late) =
      consumed (chunk r read).0 later (raw_at_timeout r read late)
