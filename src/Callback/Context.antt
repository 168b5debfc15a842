-- ===== src/Callback/Context.antt =====
-- src/callback.rs: `CallbackContext`, by the strong count of the one `Arc` it keeps. An increment and a
-- decrement of the count are what the standard library documents of cloning and dropping an `Arc`, which
-- is freed when its count becomes 0.
use wrest.Prelude.{ℕ, suc, ◌+◌, ◌-◌, ◌≡◌, refl, arith}

abbrev pub increment_strong_count : ℕ → ℕ
increment_strong_count strong = suc strong

-- `drop` of an `Arc`.
abbrev pub drop_arc : ℕ → ℕ
drop_arc strong = strong - 1

-- `CallbackContext::new`
unfoldable pub new_context : ℕ → ℕ
new_context strong = increment_strong_count strong

-- `into_raw` forgets the context without dropping it.
unfoldable pub into_raw : ℕ → ℕ
into_raw strong = strong

unfoldable pub clone_arc_from_raw : ℕ → ℕ
clone_arc_from_raw strong = increment_strong_count strong

unfoldable pub drop_raw : ℕ → ℕ
drop_raw strong = drop_arc strong

-- `CallbackContext::drop`
unfoldable pub drop_context : ℕ → ℕ
drop_context strong = drop_arc strong

-- Who owns the value: how many `Arc`s, how many contexts, and how many raw pointers of the system.
pub record Owners : Type 0 where
  pub arcs : ℕ
  pub contexts : ℕ
  pub raws : ℕ

-- The states that the operations lead to from the first `Arc`, each operation where its contract allows.
pub data Owned : Owners → ℕ → Type 0 where
  created : Owned (record { arcs = 1; contexts = 0; raws = 0 }) 1
  parked :
      {arcs contexts raws strong : ℕ}
      → Owned (record { arcs = suc arcs; contexts = contexts; raws = raws }) strong
      → Owned
          (record { arcs = suc arcs; contexts = suc contexts; raws = raws })
          (new_context strong)
  transferred :
      {arcs contexts raws strong : ℕ}
      → Owned (record { arcs = arcs; contexts = suc contexts; raws = raws }) strong
      → Owned (record { arcs = arcs; contexts = contexts; raws = suc raws }) (into_raw strong)
  cloned_raw :
      {arcs contexts raws strong : ℕ}
      → Owned (record { arcs = arcs; contexts = contexts; raws = suc raws }) strong
      → Owned
          (record { arcs = suc arcs; contexts = contexts; raws = suc raws })
          (clone_arc_from_raw strong)
  cloned_parked :
      {arcs contexts raws strong : ℕ}
      → Owned (record { arcs = arcs; contexts = suc contexts; raws = raws }) strong
      → Owned
          (record { arcs = suc arcs; contexts = suc contexts; raws = raws })
          (clone_arc_from_raw strong)
  raw_dropped :
      {arcs contexts raws strong : ℕ}
      → Owned (record { arcs = arcs; contexts = contexts; raws = suc raws }) strong
      → Owned (record { arcs = arcs; contexts = contexts; raws = raws }) (drop_raw strong)
  context_dropped :
      {arcs contexts raws strong : ℕ}
      → Owned (record { arcs = arcs; contexts = suc contexts; raws = raws }) strong
      → Owned (record { arcs = arcs; contexts = contexts; raws = raws }) (drop_context strong)
  arc_dropped :
      {arcs contexts raws strong : ℕ}
      → Owned (record { arcs = suc arcs; contexts = contexts; raws = raws }) strong
      → Owned (record { arcs = arcs; contexts = contexts; raws = raws }) (drop_arc strong)

-- The strong count is the number of owners: what an `Arc`, a context or a raw pointer of the system
-- refers to is not freed, and it is freed when the last of them is gone.
strong-Owned : {o : Owners} {strong : ℕ} → Owned o strong → strong ≡ o.arcs + o.contexts + o.raws
unfolding new_context into_raw clone_arc_from_raw drop_raw drop_context
strong-Owned created = refl
strong-Owned (parked r) = let e = strong-Owned r in omega arith
strong-Owned (transferred r) = let e = strong-Owned r in omega arith
strong-Owned (cloned_raw r) = let e = strong-Owned r in omega arith
strong-Owned (cloned_parked r) = let e = strong-Owned r in omega arith
strong-Owned (raw_dropped r) = let e = strong-Owned r in omega arith
strong-Owned (context_dropped r) = let e = strong-Owned r in omega arith
strong-Owned (arc_dropped r) = let e = strong-Owned r in omega arith
