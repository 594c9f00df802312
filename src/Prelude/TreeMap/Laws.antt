-- ===== src/Prelude/TreeMap/Laws.antt =====
-- Laws of the ordered maps, and the order on pairs of numbers.
use mathlib.Core.Path.{◌≡◌, refl}
use mathlib.Core.Logic.{◌↔◌}
use mathlib.Core.Bool.{Bool, true, false, ◌&&◌, ◌||◌}
use mathlib.Core.Option.{none, some}
use mathlib.Core.List.{List, [], ◌∷◌}
use Prim.Native.Nat.{ℕ, ◌≤◌}
use native.Mathlib.Omega.{arith}
use scientific_workflow.Prelude.Tests.{ltb, ◌==◌ as nat_eqb, if◌then◌else◌}
use scientific_workflow.Prelude.Lists.{length, All-map_of}
use scientific_workflow.Prelude.TreeMap.{Key, get, insert, remove, modify, Above, IsSorted}

module _ {ℓ κ} {K : Type ℓ} {V : Type κ} ⦃o : Key K⦄ where
  pub get-insert :
      (k j : K) (v : V) (m : List (K × V))
      → get j (insert k v m) ≡ (if o.eq k j then some v else get j m)
  unfolding get insert
  get-insert k j v [] = refl
  get-insert k j v ((i, w) ∷ m) =
      ground (arith, o.eq_iff k j, o.eq_iff i k, o.eq_iff i j, get-insert k j v m)

  pub Above-insert :
      (i k : K) (v : V) (m : List (K × V)) → o.lt i k ≡ true → Above i m → Above i (insert k v m)
  unfolding insert
  Above-insert i k v [] h a = (h, tt)
  Above-insert i k v ((j, w) ∷ m) h a = ground (arith, Above-insert i k v m h a.1)

  Above-trans : (i k : K) (m : List (K × V)) → o.lt i k ≡ true → Above k m → Above i m
  Above-trans i k m h = All-map_of _ _ (λ e p. o.lt_trans i k e.0 h p) m

  pub IsSorted-insert : (k : K) (v : V) (m : List (K × V)) → IsSorted m → IsSorted (insert k v m)
  unfolding insert
  IsSorted-insert k v [] s = (tt, tt)
  IsSorted-insert k v ((j, w) ∷ m) s = ground (
    arith,
    o.connex k j,
    o.eq_iff k j,
    o.eq_iff j k,
    Above-trans k j m,
    Above-insert j k v m,
    IsSorted-insert k v m s.1,
  )

  pub Above-remove : (i k : K) (m : List (K × V)) → Above i m → Above i (remove k m)
  unfolding remove
  Above-remove i k [] a = tt
  Above-remove i k ((j, w) ∷ m) a = ground (arith, Above-remove i k m a.1)

  pub IsSorted-remove : (k : K) (m : List (K × V)) → IsSorted m → IsSorted (remove k m)
  unfolding remove
  IsSorted-remove k [] s = tt
  IsSorted-remove k ((j, w) ∷ m) s = ground (arith, IsSorted-remove k m s.1, Above-remove j k m s.0)

  pub Above-modify : (i k : K) (f : V → V) (m : List (K × V)) → Above i m → Above i (modify k f m)
  unfolding modify
  Above-modify i k f [] a = tt
  Above-modify i k f ((j, w) ∷ m) a = ground (arith, Above-modify i k f m a.1)

  pub IsSorted-modify :
      (k : K) (f : V → V) (m : List (K × V)) → IsSorted m → IsSorted (modify k f m)
  unfolding modify
  IsSorted-modify k f [] s = tt
  IsSorted-modify k f ((j, w) ∷ m) s =
      ground (arith, IsSorted-modify k f m s.1, Above-modify j k f m s.0)

  pub length-modify : (k : K) (f : V → V) (m : List (K × V)) → length (modify k f m) ≡ length m
  unfolding modify
  length-modify k f [] = refl
  length-modify k f ((j, w) ∷ m) = ground (arith, length-modify k f m)

  pub length-remove-le : (k : K) (m : List (K × V)) → length (remove k m) ≤ length m
  unfolding remove
  length-remove-le k [] = omega arith
  length-remove-le k ((j, w) ∷ m) = ground (arith, length-remove-le k m)

  pub get-Above : (k : K) (m : List (K × V)) → Above k m → get k m ≡ none
  unfolding get
  get-Above k [] a = refl
  get-Above k ((j, w) ∷ m) a = ground (arith, o.eq_iff j k, o.lt_irrefl k, get-Above k m a.1)

  pub get-remove :
      (k j : K) (m : List (K × V))
      → IsSorted m
      → get j (remove k m) ≡ (if o.eq k j then none else get j m)
  unfolding get remove
  get-remove k j [] s = ground arith
  get-remove k j ((i, w) ∷ m) s =
      ground (arith, o.eq_iff k j, o.eq_iff i k, o.eq_iff i j, get-Above j m, get-remove k j m s.1)

  pub get-modify :
      (k j : K) (f : V → V) (m : List (K × V))
      → get j (modify k f m)
        ≡ (if o.eq k j then elim (get j m) [ none ↦ none | some v ↦ some (f v) ] else get j m)
  unfolding get modify
  get-modify k j f [] = ground arith
  get-modify k j f ((i, w) ∷ m) =
      ground (arith, o.eq_iff k j, o.eq_iff i k, o.eq_iff i j, get-modify k j f m)

-- Pairs of numbers, first component first.
abbrev pub lt_pair : ℕ × ℕ → ℕ × ℕ → Bool
lt_pair (a, b) (c, d) = ltb a c || (nat_eqb a c && ltb b d)

abbrev pub eq_pair : ℕ × ℕ → ℕ × ℕ → Bool
eq_pair (a, b) (c, d) = nat_eqb a c && nat_eqb b d

pub eq_pair_iff : (p q : ℕ × ℕ) → (eq_pair p q ≡ true) ↔ (p ≡ q)
eq_pair_iff (a, b) (c, d) = (λ h. ground arith, λ h. ground arith)

pub lt_pair_irrefl : (p : ℕ × ℕ) → lt_pair p p ≡ false
lt_pair_irrefl (a, b) = ground arith

pub lt_pair_trans : (p q r : ℕ × ℕ) → lt_pair p q ≡ true → lt_pair q r ≡ true → lt_pair p r ≡ true
lt_pair_trans (a, b) (c, d) (e, f) h k = ground arith

pub lt_pair_connex : (p q : ℕ × ℕ) → lt_pair p q ≡ false → eq_pair p q ≡ false → lt_pair q p ≡ true
lt_pair_connex (a, b) (c, d) h k = ground arith

instance abbrev pub pair_key : Key (ℕ × ℕ)
pair_key = record {
  lt = lt_pair;
  eq = eq_pair;
  eq_iff = eq_pair_iff;
  lt_irrefl = lt_pair_irrefl;
  lt_trans = lt_pair_trans;
  connex = lt_pair_connex;
}
