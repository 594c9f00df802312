-- ===== src/Config/Manifest/Lookup.antt =====
-- How the phases that rust/src/config/manifest.rs accepts look up their dependencies.
use scientific_workflow.Prelude.{
  ℕ, zero, suc, ◌+◌, ◌≡◌, refl, sym, ap, ◌∙◌, inl, inr, true, Bool-cases, some, List, [], ◌∷◌, All,
  All-map_of, length, map, subst, arith, get_elem?, Option-cases,
}
use scientific_workflow.Prelude.Texts.{Text, text_eq, text_eq_comm}
use scientific_workflow.Prelude.Members.{In}
use scientific_workflow.Study.{PhaseKeys, index_from, by_name}
use scientific_workflow.Study.Order.{IsResolved}
use scientific_workflow.Config.Manifest.{StudyManifest, ParsedPhase}
use scientific_workflow.Config.Manifest.Phases.{is_member}
use scientific_workflow.Config.Manifest.Names.{IsDeclared, IsAccepted}
use scientific_workflow.Config.Manifest.Parse.{phase_keys}

names-known :
    (start : ℕ) (phases : List PhaseKeys) (d : Text)
    → is_member d (map (λ (k : PhaseKeys). k.name) phases) ≡ true
    → (other : ℕ) × (index_from start phases d ≡ some other)
unfolding index_from
names-known start [] d h = absurd (ground arith)
names-known start (k ∷ phases) d h = elim (Option-cases (index_from (start + 1) phases d)) [
  | inr (later, e) ↦ (later, ground arith)
  | inl e ↦ elim (Bool-cases (text_eq d k.name)) [
    | inl same ↦ let same2 = text_eq_comm k.name d in (start, ground arith)
    | inr differ ↦
        let (other, later) = names-known (start + 1) phases d (ground arith) in
        absurd (ground arith)
  ]
]

abbrev IsFound : List PhaseKeys → Text → Type 0
IsFound phases d = (other : ℕ) × (by_name phases d ≡ some other)

All-get :
    {A : Type 0} (P : A → Type 0) (xs : List A)
    → All P xs
    → (position : ℕ) (x : A) → get_elem? xs position ≡ some x
    → P x
All-get P [] h position x e = absurd (ground arith)
All-get P (y ∷ xs) h zero x e = let same : y ≡ x = ground arith in subst P same h.0
All-get P (y ∷ xs) h (suc position) x e = All-get P xs h.1 position x e

All-In : {A : Type 0} (P : A → Type 0) (xs : List A) → All P xs → (x : A) → In x xs → P x
All-In P [] h x m = absurd m
All-In P (y ∷ xs) h x (inl e) = subst P (sym e) h.0
All-In P (y ∷ xs) h x (inr m) = All-In P xs h.1 x m

lookups-IsResolved :
    (phases : List PhaseKeys)
    → All (λ (k : PhaseKeys). All (IsFound phases) k.dependencies) phases
    → IsResolved phases
lookups-IsResolved phases h position p d at m =
    All-In (IsFound phases) p.dependencies
      (All-get (λ (k : PhaseKeys). All (IsFound phases) k.dependencies) phases h position p at) d m

phase_keys-names :
    {Python : Type 0} (phases : List (ParsedPhase Python))
    → map (λ (k : PhaseKeys). k.name) (phase_keys phases)
      ≡ map (λ (p : ParsedPhase Python). p.name) phases
unfolding phase_keys
phase_keys-names [] = refl
phase_keys-names (p ∷ phases) = ap (λ (names : List Text). p.name ∷ names) (phase_keys-names phases)

phase_keys-All :
    {Python : Type 0} (P : List Text → Type 0) (phases : List (ParsedPhase Python))
    → All (λ (p : ParsedPhase Python). P p.dependencies) phases
    → All (λ (k : PhaseKeys). P k.dependencies) (phase_keys phases)
unfolding phase_keys
phase_keys-All P [] h = tt
phase_keys-All P (p ∷ phases) h = (h.0, phase_keys-All P phases h.1)

pub phase_keys-length :
    {Python : Type 0} (phases : List (ParsedPhase Python))
    → length (phase_keys phases) ≡ length phases
unfolding phase_keys
phase_keys-length [] = refl
phase_keys-length (p ∷ phases) = ap suc (phase_keys-length phases)

-- Phases whose dependencies are all declared names can all look them up.
pub accepted-IsResolved :
    {Percent Python : Type 0} (manifest : StudyManifest Percent) (declared : List Text)
    (phases : List (ParsedPhase Python))
    → All (IsAccepted manifest declared) phases
    → map (λ (p : ParsedPhase Python). p.name) phases ≡ declared
    → IsResolved (phase_keys phases)
unfolding by_name
accepted-IsResolved {Python = Python} manifest declared phases accepted names =
    let keys = phase_keys phases in
    let same : map (λ (k : PhaseKeys). k.name) keys ≡ declared = phase_keys-names phases ∙ names in
    let found : (d : Text) → IsDeclared declared d → IsFound keys d = λ d h.
      names-known 0 keys d (subst (λ (ns : List Text). is_member d ns ≡ true) (sym same) h) in
    lookups-IsResolved keys (
      phase_keys-All (All (IsFound keys)) phases (
        All-map_of (IsAccepted manifest declared)
          (λ (p : ParsedPhase Python). All (IsFound keys) p.dependencies)
          (λ p h. All-map_of (IsDeclared declared) (IsFound keys) found p.dependencies h.2) phases
          accepted))
