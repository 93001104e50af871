-- ===== src/Projects/Diff/Laws.antt =====
-- `_diff` of application/project_service.py against the reading of it path by path.
use workspace.Base.{
  ◌≡◌, ◌↔◌, refl, sym, ap, ◌∙◌, Bool, true, false, ◌||◌, Option, none, some, List, [], ◌∷◌, ◌++◌,
  Text, text_eq, text_eq-eq, text_eq_refl, any, if◌then◌else◌, on_if, Bool-cases, inl, inr, arith,
  dict_get, is_some, keys,
}
use workspace.Domain.Enums.{ChangeKind}
use workspace.Projects.Diff.{
  Tree, insert_path, sorted_paths, change_of, add_change, diff_at, diff_paths, diff, same_digest,
  agree_on, dict_eq,
}

-- What became of a path, from what stands there on either side.
abbrev pub expected : Option Text → Option Text → Option ChangeKind
expected none none = none
expected none (some r) = some ChangeKind.added
expected (some l) none = some ChangeKind.removed
expected (some l) (some r) = if text_eq l r then none else some ChangeKind.modified

abbrev among : Text → List Text → Bool
among path paths = any (λ q. text_eq q path) paths

among-insert :
    (path q : Text) (qs : List Text)
    → among path (insert_path q qs) ≡ (text_eq q path || among path qs)
unfolding insert_path
among-insert path q [] = ground arith
among-insert path q (x ∷ qs) = elim (Bool-cases (text_eq q x)) [
  | inl e ↦
      let same = text_eq-eq q x e in
      let e1 : text_eq q path ≡ text_eq x path = ap (λ t. text_eq t path) same in ground (arith)
  | inr e ↦ let rest = among-insert path q qs in ground (arith)
]

among-sorted : (path : Text) (ps : List Text) → among path (sorted_paths ps) ≡ among path ps
unfolding sorted_paths
among-sorted path [] = refl
among-sorted path (p ∷ ps) =
    among-insert path p (sorted_paths ps) ∙ (let rest = among-sorted path ps in ground (arith))

among-append :
    (path : Text) (ps qs : List Text) → among path (ps ++ qs) ≡ (among path ps || among path qs)
among-append path [] qs = refl
among-append path (p ∷ ps) qs = let rest = among-append path ps qs in ground (arith)

among-keys : (path : Text) (d : Tree) → among path (keys d) ≡ is_some (dict_get path d)
unfolding dict_get
among-keys path [] = refl
among-keys path ((k, v) ∷ d) = let rest = among-keys path d in ground (arith)

change_here :
    (p path : Text) (c : Option ChangeKind) (changes : List (Text × ChangeKind))
    → text_eq p path ≡ true
    → (c ≡ none → dict_get path changes ≡ none)
    → dict_get path (add_change p c changes) ≡ c
unfolding dict_get
change_here p path none changes e h = h refl
change_here p path (some c) changes e h = ground (arith)

change_elsewhere :
    (p path : Text) (c : Option ChangeKind) (changes : List (Text × ChangeKind))
    → text_eq p path ≡ false
    → dict_get path (add_change p c changes) ≡ dict_get path changes
unfolding dict_get
change_elsewhere p path none changes e = refl
change_elsewhere p path (some c) changes e = ground (arith)

expected_by_cases :
    (l r : Option Text) → (if is_some l || is_some r then change_of l r else none) ≡ expected l r
expected_by_cases none none = refl
expected_by_cases none (some r) = refl
expected_by_cases (some l) none = refl
expected_by_cases (some l) (some r) = refl

module _ (left right : Tree) where
  diff_paths-dict_get :
      (path : Text) (ps : List Text)
      → dict_get path (diff_paths left right ps)
        ≡ (if among path ps then diff_at left right path else none)
  unfolding diff_paths
  diff_paths-dict_get path [] = refl
  diff_paths-dict_get path (p ∷ ps) =
      let rest = diff_paths-dict_get path ps in
      elim (Bool-cases (text_eq p path)) [
        | inl e ↦
            let same : diff_at left right p ≡ diff_at left right path =
              ap (diff_at left right) (text_eq-eq p path e) in
            change_here p path (diff_at left right p) (diff_paths left right ps) e (λ absent.
              rest ∙ on_if (λ o. o ≡ none) (among path ps) (λ _. sym same ∙ absent) (λ _. refl))
            ∙ same
            ∙ ground (arith)
        | inr e ↦
            change_elsewhere p path (diff_at left right p) (diff_paths left right ps) e
            ∙ rest
            ∙ ground (arith)
      ]

  among_either :
      (path : Text)
      → among path (sorted_paths (keys left ++ keys right))
        ≡ (is_some (dict_get path left) || is_some (dict_get path right))
  among_either path =
      among-sorted path (keys left ++ keys right)
      ∙ among-append path (keys left) (keys right)
      ∙ (let e = among-keys path left in let e1 = among-keys path right in ground (arith))

  -- Looked up in the difference, a path has exactly the change that it went through.
  pub diff-dict_get :
      (path : Text)
      → dict_get path (diff left right) ≡ expected (dict_get path left) (dict_get path right)
  unfolding diff diff_at
  diff-dict_get path =
      diff_paths-dict_get path _
      ∙ ap (λ b. if b then diff_at left right path else none) (among_either path)
      ∙ expected_by_cases (dict_get path left) (dict_get path right)

same_digest-expected : (l r : Option Text) → (same_digest l r ≡ true) ↔ (expected l r ≡ none)
same_digest-expected none none = (λ h. refl, λ h. refl)
same_digest-expected none (some r) = (λ h. cc, λ h. cc)
same_digest-expected (some l) none = (λ h. cc, λ h. cc)
same_digest-expected (some l) (some r) = (λ h. ground (arith), λ h. ground (arith))

absent_same : (l r : Option Text) → (is_some l || is_some r) ≡ false → same_digest l r ≡ true
absent_same none none h = refl
absent_same none (some r) h = cc
absent_same (some l) r h = absurd (ground (arith))

nothing : (path : Text) → dict_get {V = ChangeKind} path [] ≡ none
unfolding dict_get
nothing path = refl

no_lookup : (d : List (Text × ChangeKind)) → ((path : Text) → dict_get path d ≡ none) → d ≡ []
unfolding dict_get
no_lookup [] h = refl
no_lookup ((k, c) ∷ d) h = let e = h k in let self = text_eq_refl k in absurd (ground (arith))

module _ (left right : Tree) where
  agree_on-same :
      (path : Text) (ps : List Text)
      → agree_on left right ps ≡ true
      → among path ps ≡ true
      → same_digest (dict_get path left) (dict_get path right) ≡ true
  unfolding agree_on
  agree_on-same path [] h e = cc
  agree_on-same path (p ∷ ps) h e = elim (Bool-cases (text_eq p path)) [
    | inl k ↦
        ap (λ t. same_digest (dict_get t left) (dict_get t right)) (sym (text_eq-eq p path k))
        ∙ ground (arith)
    | inr k ↦ agree_on-same path ps (ground (arith)) (ground (arith))
  ]

  same-agree_on :
      (ps : List Text)
      → ((path : Text) → same_digest (dict_get path left) (dict_get path right) ≡ true)
      → agree_on left right ps ≡ true
  unfolding agree_on
  same-agree_on [] h = refl
  same-agree_on (p ∷ ps) h = let e = h p in let rest = same-agree_on ps h in ground (arith)

  dict_eq-same :
      (path : Text)
      → dict_eq left right ≡ true
      → same_digest (dict_get path left) (dict_get path right) ≡ true
  unfolding dict_eq
  dict_eq-same path h = elim (Bool-cases (among path (keys left ++ keys right))) [
    | inl e ↦ agree_on-same path (keys left ++ keys right) h e
    | inr e ↦
        let either = among-append path (keys left) (keys right) in
        let e1 = among-keys path left in
        let e2 = among-keys path right in
        absent_same (dict_get path left) (dict_get path right) (ground (arith))
  ]

  -- Nothing changed exactly when the two are equal as dicts.
  pub diff_iff : (diff left right ≡ []) ↔ (dict_eq left right ≡ true)
  unfolding dict_eq
  diff_iff = (
    λ h. same-agree_on (keys left ++ keys right) (λ path.
        (same_digest-expected (dict_get path left) (dict_get path right)).1
          (sym (diff-dict_get left right path) ∙ ap (dict_get path) h ∙ nothing path)),
    λ h. no_lookup (diff left right) (λ path.
        diff-dict_get left right path
        ∙ (same_digest-expected (dict_get path left) (dict_get path right)).0
            (dict_eq-same path h)),
  )
