-- ===== src/Entry/Spec.antt =====
-- What entry mode promises: at most one grant, with at most two tokens.
use openeuler_ummu.Base.{
  ℕ, ◌==◌, ◌&&◌, ◌||◌, not, if◌then◌else◌, Option, none, some, List, [], ◌∷◌, ◌++◌, einval, length,
  Bool, false,
}
use openeuler_ummu.Mapt.{DataInfo}
use openeuler_ummu.Token.View.{erase}

pub record Grant : Type 0 where
  pub base : ℕ
  pub limit : ℕ
  pub perm : ℕ
  pub e_bit : ℕ
  pub token_check : ℕ
  pub tokens : List ℕ

abbrev pub holds : ℕ → List ℕ → Bool
holds t [] = false
holds t (x ∷ xs) = (x == t) || holds t xs

abbrev pub same_range : Grant → DataInfo → Bool
same_range g d = (g.base == d.data_base) && (g.limit == d.data_limit)

-- A grant is made where there is none. A second grant of the same range with the same attributes
-- adds its token to the only one.
abbrev pub grant_spec : Option Grant → DataInfo → Option Grant × ℕ
grant_spec none d = (
  some (record {
    base = d.data_base;
    limit = d.data_limit;
    perm = d.perm;
    e_bit = d.e_bit;
    token_check = d.token_check;
    tokens = if d.token_check == 1 then d.tokenval ∷ [] else [];
  }),
  0,
)
grant_spec (some g) d =
    if same_range g d
      && (d.token_check == 1)
      && (g.perm == d.perm)
      && (g.e_bit == d.e_bit)
      && (length g.tokens == 1)
    then (some (record g { tokens = g.tokens ++ d.tokenval ∷ [] }), 0)
    else (some g, einval)

-- The whole grant is dropped on request, or with its last token; a token that is not the last is
-- erased.
abbrev pub ungrant_spec : Option Grant → DataInfo → Option Grant × ℕ
ungrant_spec none d = (none, einval)
ungrant_spec (some g) d =
    if not (same_range g d)
    then (some g, einval)
    else if d.bytoken == 0
    then (none, 0)
    else if not (holds d.tokenval g.tokens)
    then (some g, einval)
    else if length g.tokens == 1
    then (none, 0)
    else (some (record g { tokens = erase d.tokenval g.tokens }), 0)
