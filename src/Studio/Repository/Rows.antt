-- ===== src/Studio/Repository/Rows.antt =====
-- The table of versions as a map from ids to rows.
use Prim.Native.Nat.{max}
use native.Mathlib.Nat.{le_refl}
use zero_shield.Base.{
  ℕ, ◌+◌, ◌≤◌, ◌<◌, String, ◌≡◌, refl, subst, inl, inr, Bool-cases, true, some, List, [], ◌∷◌,
  arith, if◌then◌else◌, str_eq, eq_iff, All,
}
use zero_shield.Models.Versions.{ExperimentVersion}
use zero_shield.Studio.Repository.{find_row, put_row, latest_version_number, next_version_number}

-- A saved row is found under its id, and every other id is found as before.
pub find_row-put_row :
    (id : String) (v : ExperimentVersion) (vs : List ExperimentVersion)
    → find_row id (put_row v vs) ≡ (if str_eq v.version_id id then some v else find_row id vs)
unfolding find_row put_row
find_row-put_row id v [] = refl
find_row-put_row id v (w ∷ ws) = ground (
  arith,
  eq_iff v.version_id id,
  eq_iff w.version_id v.version_id,
  eq_iff w.version_id id,
  find_row-put_row id v ws,
)

-- What holds of every row and of the saved one holds of every row afterwards.
pub put_row-All {ℓ} :
    (P : ExperimentVersion → Type ℓ) (v : ExperimentVersion) (vs : List ExperimentVersion)
    → P v
    → All P vs
    → All P (put_row v vs)
unfolding put_row
put_row-All P v [] pv h = (pv, tt)
put_row-All P v (w ∷ ws) pv (pw, h) = elim (Bool-cases (str_eq w.version_id v.version_id)) [
  | inl same ↦ rw same (pv, h)
  | inr other ↦ rw other (pw, put_row-All P v ws pv h)
]

pub find_row-All {ℓ} :
    (P : ExperimentVersion → Type ℓ) (id : String) (vs : List ExperimentVersion)
    {v : ExperimentVersion}
    → All P vs
    → find_row id vs ≡ some v
    → P v
unfolding find_row
find_row-All P id [] h e = cc
find_row-All P id (w ∷ ws) {v} (pw, h) e = elim (Bool-cases (str_eq w.version_id id)) [
  | inl same ↦ let found : some w ≡ some v = rw same at e in let eq : w ≡ v = cc in subst P eq pw
  | inr other ↦ find_row-All P id ws h (rw other at e)
]

numbers-le :
    (id : String) (m : ℕ) (vs : List ExperimentVersion)
    → latest_version_number id vs ≤ m
    → All (λ v. str_eq v.experiment_id id ≡ true → v.version_number < m + 1) vs
unfolding latest_version_number
numbers-le id m [] h = tt
numbers-le id m (v ∷ vs) h = elim (Bool-cases (str_eq v.experiment_id id)) [
  | inl same ↦
      let h' : max v.version_number (latest_version_number id vs) ≤ m = rw same at h in
      (λ _. omega arith, numbers-le id m vs (omega arith))
  | inr other ↦ (λ e. cc, numbers-le id m vs (rw other at h))
]

-- The next version number of an experiment is above every number that it has.
pub next_version_number-fresh :
    (id : String) (vs : List ExperimentVersion)
    → All (λ v. str_eq v.experiment_id id ≡ true → v.version_number < next_version_number id vs) vs
unfolding next_version_number
next_version_number-fresh id vs = numbers-le id (latest_version_number id vs) vs (le_refl _)
