-- ===== src/Db/History.antt =====
-- The order in which the run history is listed.
use loxbak.Base.{Bool-cases, inl, inr, ltb→lt, All-imp, ◌≤◌, List, [], ◌∷◌, arith, ltb, All}
use loxbak.Db.{Run}
use loxbak.Db.Runs.{insert_by_start, newest_first}

-- No run stands behind one that started earlier.
abbrev pub NewestFirst : List Run → Type 0
NewestFirst [] = Unit
NewestFirst (r ∷ rs) = All (λ x. x.started_at ≤ r.started_at) rs × NewestFirst rs

insert_by_start-All :
    (P : Run → Type 0) (r : Run) (rs : List Run) → P r → All P rs → All P (insert_by_start r rs)
unfolding insert_by_start
insert_by_start-All P r [] p h = (p, tt)
insert_by_start-All P r (x ∷ rs) p (q, h) = elim (Bool-cases (ltb x.started_at r.started_at)) [
  | inl e ↦ rw e (p, (q, h))
  | inr e ↦ rw e (q, insert_by_start-All P r rs p h)
]

insert_by_start-NewestFirst :
    (r : Run) (rs : List Run) → NewestFirst rs → NewestFirst (insert_by_start r rs)
unfolding insert_by_start
insert_by_start-NewestFirst r [] h = (tt, tt)
insert_by_start-NewestFirst r (x ∷ rs) (a, h) = elim (Bool-cases (ltb x.started_at r.started_at)) [
  | inl e ↦ rw e (
    (
      omega (arith, ltb→lt x.started_at r.started_at e),
      All-imp _ _ (λ y k. omega (arith, ltb→lt x.started_at r.started_at e)) rs a,
    ),
    (a, h),
  )
  | inr e ↦ rw e (insert_by_start-All _ r rs (ground arith) a, insert_by_start-NewestFirst r rs h)
]

pub newest_first-NewestFirst :
    (sorted rs : List Run) → NewestFirst sorted → NewestFirst (newest_first sorted rs)
unfolding newest_first
newest_first-NewestFirst sorted [] h = h
newest_first-NewestFirst sorted (r ∷ rs) h =
    newest_first-NewestFirst (insert_by_start r sorted) rs (insert_by_start-NewestFirst r sorted h)
