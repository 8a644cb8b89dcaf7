-- ===== src/Table/Walk/History.antt =====
-- The grants of a table, one after the other from its creation on.
use openeuler_ummu.Base.{
  ℕ, ◌^◌, ◌≤◌, ◌<◌, ◌≡◌, refl, ap, ◌∙◌, arith, Bool, Option, none, some, List, [], ◌∷◌, ◌==◌,
  if◌then◌else◌, not, Bool-cases, inl, inr, ◌≢◌, ◌⊎◌,
}
use native.Mathlib.Decide.{ℕ_discrete}
use openeuler_ummu.Mapt.{DataInfo, grant}
use openeuler_ummu.Table.{Kernel, State, TableNode, M, pure, ◌>>=◌}
use openeuler_ummu.Table.Run.{Runs, Ends, Runs-bind, Ends-weaken}
use openeuler_ummu.Table.LevelBlock.{LevelPtr, level_at, failed}
use openeuler_ummu.Table.LevelBlock.Cells.{IsBlank}
use openeuler_ummu.Table.Fill.{ummu_table_fill_node_by_level}
use openeuler_ummu.Table.Op.{ummu_table_op, init_table}
use openeuler_ummu.Table.Walk.{Reading}
use openeuler_ummu.Table.Walk.Range.{within, or_granted}
use openeuler_ummu.Table.Walk.Node.{granted}
use openeuler_ummu.Table.Walk.Grant.{
  IsTable, lookup, fill_table, Granted, fill_table-Granted, Fresh, init_table-Fresh,
}

-- A grant as the checks let it through: its range is not empty and lies below 2^48.
pub record IsRequest (d : DataInfo) : Type 0 where
  pub op : d.op ≡ grant
  pub flag : d.token_check < 2
  pub ordered : d.data_base ≤ d.data_limit
  pub small : d.data_limit < 2 ^ 48

abbrev pub AreRequests : List DataInfo → Type 0
AreRequests [] = Unit
AreRequests (d ∷ ds) = IsRequest d × AreRequests ds

-- What a list of grants, oldest first, says of an address: the first that covers it counts.
abbrev pub first_grant : List DataInfo → ℕ → Option Reading
first_grant [] a = none
first_grant (d ∷ ds) a =
    let rest = first_grant ds a in
    if within d.data_base d.data_limit a then some (granted d) else rest

-- the same for a table that answers already
abbrev pub or_first : Option Reading → List DataInfo → ℕ → Option Reading
or_first (some r) ds a = some r
or_first none ds a = first_grant ds a

-- the operations one after the other, up to the first that fails
unfoldable pub table_ops : Kernel → List DataInfo → M ℕ
unfolding ummu_table_op
table_ops kernel [] = pure 0
table_ops kernel (d ∷ ds) = do
  ret ← ummu_table_op kernel d
  if not (ret == 0) then pure ret else table_ops kernel ds

-- The same, without what follows a failure.
unfoldable pub fill_all : Kernel → List DataInfo → M ℕ
unfolding ummu_table_fill_node_by_level
fill_all kernel [] = pure 0
fill_all kernel (d ∷ ds) = do
  ret ← fill_table kernel d
  if not (ret == 0) then pure ret else fill_all kernel ds

or_first-granted :
    (d : DataInfo) (ds : List DataInfo) (a : ℕ) (old : Option Reading)
    → or_first (or_granted d.data_base d.data_limit (granted d) old a) ds a
      ≡ or_first old (d ∷ ds) a
or_first-granted d ds a none = ground arith
or_first-granted d ds a (some r) = refl

abbrev Served : Kernel → List DataInfo → State → ℕ → State → Type 0
Served kernel ds s ret s' =
    ret ≡ 0
    → (table_ops kernel ds s ≡ some (0, s'))
      × ((a : ℕ) → a < 2 ^ 48 → lookup s' a ≡ or_first (lookup s a) ds a)

or_first-nil : (o : Option Reading) (a : ℕ) → o ≡ or_first o [] a
or_first-nil none a = refl
or_first-nil (some r) a = refl

module _ (kernel : Kernel) (blank : IsBlank kernel) where
  table_ops-next :
      (d : DataInfo) (ds : List DataInfo) (s s1 s2 : State)
      → ummu_table_op kernel d s ≡ some (0, s1)
      → table_ops kernel ds s1 ≡ some (0, s2)
      → table_ops kernel (d ∷ ds) s ≡ some (0, s2)
  unfolding table_ops
  table_ops-next d ds s s1 s2 e f = rw (e, table_ops) f

  fill_all-Served :
      (ds : List DataInfo) (s : State)
      → AreRequests ds
      → IsTable s
      → Runs (fill_all kernel ds) s (Served kernel ds s)
  unfolding fill_all table_ops
  fill_all-Served [] s q t = λ _. (refl, λ a l. or_first-nil (lookup s a) a)
  fill_all-Served (d ∷ ds) s (q, qs) t =
      Runs-bind (Granted kernel d s) _ (fill_table kernel d) _ s
        (fill_table-Granted kernel blank d q.flag q.op q.ordered q.small s t)
        λ ret s1 g. elim (Bool-cases (not (ret == 0))) [
          | inl e ↦ rw e (λ z. absurd (ground (arith, z)))
          | inr e ↦
              let (run, t1, reads) = g (ground arith) in
              rw e (
                Ends-weaken (Served kernel ds s1) _ (fill_all kernel ds s1)
                  (fill_all-Served ds s1 qs t1)
                  (λ r s2 h z.
                    let (runs, now) = h z in
                    (
                      table_ops-next d ds s s1 s2 run runs,
                      λ a l.
                          now a l
                          ∙ ap (λ o. or_first o ds a) (reads a l)
                          ∙ or_first-granted d ds a (lookup s a),
                    )))
        ]

  -- what a table just created, with the grants made in it, says of an address
  abbrev pub ServedFrom : List DataInfo → ℕ → LevelPtr → State → Type 0
  ServedFrom ds a (failed e) s = Unit
  ServedFrom ds a (level_at index offset) s = Runs (fill_all kernel ds) s λ ret s'.
      (ret ≢ 0) ⊎ ((table_ops kernel ds s ≡ some (0, s')) × (lookup s' a ≡ first_grant ds a))

  Fresh-ServedFrom :
      (ds : List DataInfo) (a : ℕ)
      → AreRequests ds
      → a < 2 ^ 48
      → (r : LevelPtr) (s : State) → Fresh r s
      → ServedFrom ds a r s
  Fresh-ServedFrom ds a q l (failed e) s f = tt
  Fresh-ServedFrom ds a q l (level_at index offset) s (t, empty) =
      Ends-weaken (Served kernel ds s) _ (fill_all kernel ds s) (fill_all-Served ds s q t)
        λ ret s' h. elim (ℕ_discrete ret 0) [
          | yes z ↦ inr ((h z).0, (h z).1 a l ∙ ap (λ o. or_first o ds a) (empty a l))
          | no ne ↦ inl ne
        ]

  -- With memory that the kernel maps without nodes in use, in blocks of 64K or more: the creation of a
  -- table, and then grants of ranges below 2^48 that are not empty, make no access outside of the memory
  -- mapped up to the first grant that fails. If the table is created and none fails, the operations end with status 0, and a walk for an address below 2^48 finds
  -- what the oldest of the grants that cover it says, and nothing if none covers it.
  pub create_and_grant :
      (ds : List DataInfo) (a : ℕ)
      → AreRequests ds
      → a < 2 ^ 48
      → (n : TableNode) (expan : Bool) (size calls : ℕ) → 0x1_0000 ≤ size
      → Ends (init_table kernel n expan size calls) (ServedFrom ds a)
  create_and_grant ds a q l n expan size calls room =
      Ends-weaken Fresh (ServedFrom ds a) (init_table kernel n expan size calls)
        (init_table-Fresh kernel blank n expan size calls room) (Fresh-ServedFrom ds a q l)
