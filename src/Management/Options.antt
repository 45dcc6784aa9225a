-- ===== src/Management/Options.antt =====
-- The loop over the management options, which Put of each of the three managers begins with.
use azure_service_bus_go.Prelude.{
  ◌≡◌, ◌⊎◌, refl, Option, none, some, List, [], ◌∷◌, map, arith, Option-cases, inl, inr,
}
use azure_service_bus_go.Prelude.Int.{ℤ, pos, ◌≤ℤ◌}
use azure_service_bus_go.Errors.{Error, Exec, ok, err}

unfoldable pub apply_management_options : {D : Type 0} → List (D → D × Option Error) → D → Exec D
apply_management_options [] q = ok q
apply_management_options (option ∷ options) q =
    let (q', e) = option q in elim e [ some x ↦ err x | none ↦ apply_management_options options q' ]

-- Unset, or between 1024 and 5120.
abbrev pub IsSize : Option ℤ → Type 0
IsSize none = Unit
IsSize (some n) = (pos 1024 ≤ℤ n) × (n ≤ℤ pos 5120)

-- The first option that fails, with its error `e`, on what those before it have made of `q`.
pub data Stopped {D Setting : Type 0} (option_of : Setting → D → D × Option Error)
    : List Setting → D → Error → Type 0 where
  at_once :
      {s : Setting} {l : List Setting} {q : D} {e : Error}
      → (option_of s q).1 ≡ some e
      → Stopped option_of (s ∷ l) q e
  behind :
      {s : Setting} {l : List Setting} {q : D} {e : Error}
      → (option_of s q).1 ≡ none
      → Stopped option_of l (option_of s q).0 e
      → Stopped option_of (s ∷ l) q e

-- Every option succeeds, each on what those before it have made of `q`, and the last leaves `q'`.
pub data Applied {D Setting : Type 0} (option_of : Setting → D → D × Option Error)
    : List Setting → D → D → Type 0 where
  nothing_left : {q : D} → Applied option_of [] q q
  applied :
      {s : Setting} {l : List Setting} {q q' : D}
      → (option_of s q).1 ≡ none
      → Applied option_of l (option_of s q).0 q'
      → Applied option_of (s ∷ l) q q'

-- The loop ends with the error of the first option that fails, or all succeed, and its description has
-- every property that each option keeps where it succeeds.
module _ {D Setting : Type 0} (option_of : Setting → D → D × Option Error) (P : D → Type 0)
    (keeps : (s : Setting) (q : D) → P q → (option_of s q).1 ≡ none → P (option_of s q).0) where
  pub apply_management_options-kept :
      (l : List Setting) (q : D)
      → P q
      → ((e : Error) × Stopped option_of l q e
          × (apply_management_options (map option_of l) q ≡ err e))
        ⊎ ((q' : D) × P q'
            × Applied option_of l q q'
            × (apply_management_options (map option_of l) q ≡ ok q'))
  unfolding apply_management_options
  apply_management_options-kept [] q v = inr (q, v, nothing_left, refl)
  apply_management_options-kept (s ∷ l) q v = elim (Option-cases (option_of s q).1) [
    | inr (x, failed) ↦ inl (x, at_once failed, ground arith)
    | inl fine ↦ elim (apply_management_options-kept l (option_of s q).0 (keeps s q v fine)) [
      | inl (e, stopped, ends) ↦ inl (e, behind fine stopped, rw fine ends)
      | inr (q', valid, all, ends) ↦ inr (q', valid, applied fine all, rw fine ends)
    ]
  ]
