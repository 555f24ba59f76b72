-- ===== src/Patch/Validate/Apart.antt =====
-- The file sections that `validate_file_patches` of apply_patch.rs lets through.
use cloud_agent.Base.{
  ℕ, zero, suc, ◌<◌, ◌≡◌, refl, ap, sym, ◌∙◌, subst, Bool, true, false, ◌&&◌, ◌||◌, none, some,
  Option, List, [], ◌∷◌, get_elem?, arith, ok, value_before, Bool-cases, inl, inr,
}
use cloud_agent.Base.Text.{Text, text_eq, text_eq_iff, is_empty}
use cloud_agent.Patch.Data.{FilePatch}
use cloud_agent.Patch.Paths.{has_path, has_path-insert_path}
use cloud_agent.Patch.Validate.{
  section_paths, insert_unless_null, dev_null, affect, validate_hunks, validate_from,
  validate_file_patches,
}

older : (a b c d : Bool) → (a && b) ≡ false → b ≡ (c || d) → (a && d) ≡ false
older a b c d h e = ground (arith, h, e)

newer : (a b c d : Bool) → (a && b) ≡ false → b ≡ (c || d) → (c && a) ≡ false
newer a b c d h e = ground (arith, h, e)

moved : (n e p a : Bool) → n ≡ (p || (e || a)) → n ≡ ((e || p) || a)
moved n e p a h = ground (arith, h)

kept : (e p a : Bool) → (p && (e || a)) ≡ false → (e ≡ true → a ≡ false) → ((e || p) && a) ≡ false
kept true p a h k = rw (k refl) (ground arith)
kept false p a h k = h

-- After a section, its paths are affected too, and none of them was before.
affect-has_path :
    (paths affected next : List Text) (k : Text)
    → affect paths affected ≡ ok next
    → (has_path k next ≡ (has_path k paths || has_path k affected))
      × ((has_path k paths && has_path k affected) ≡ false)
unfolding affect has_path
affect-has_path [] affected next k h = (ap (has_path k) (sym (cc h)), refl)
affect-has_path (path ∷ paths) affected next k h = elim (Bool-cases (has_path path affected)) [
  | inl e ↦ absurd (ground (arith, h, e))
  | inr e ↦
      let rest : affect paths (path ∷ affected) ≡ ok next = rw e at h in
      let (same, apart) = affect-has_path paths (path ∷ affected) next k rest in
      (
        moved (has_path k next) (text_eq k path) (has_path k paths) (has_path k affected) same,
        kept (text_eq k path) (has_path k paths) (has_path k affected) apart
            (λ found. ap (λ t. has_path t affected) ((text_eq_iff k path).0 found) ∙ e),
      )
]

affected_stays :
    (affected : List Text) (ps : List FilePatch) (j : ℕ) (q : FilePatch) (k : Text)
    → validate_from affected ps ≡ ok tt
    → get_elem? ps j ≡ some q
    → (has_path k (section_paths q) && has_path k affected) ≡ false
unfolding validate_from
affected_stays affected [] j q k h e = cc
affected_stays affected (p ∷ ps) zero q k h e =
    let (next, f, g) = value_before (affect (section_paths p) affected) _ h in
    let same : p ≡ q = cc e in
    subst (λ (x : FilePatch). (has_path k (section_paths x) && has_path k affected) ≡ false) same
      (affect-has_path (section_paths p) affected next k f).1
affected_stays affected (p ∷ ps) (suc j) q k h e =
    let (next, f, g) = value_before (affect (section_paths p) affected) _ h in
    let (_, _, rest) = value_before (validate_hunks p) _ g in
    older (has_path k (section_paths q)) (has_path k next) (has_path k (section_paths p))
      (has_path k affected) (affected_stays next ps j q k rest e)
      (affect-has_path (section_paths p) affected next k f).0

sections_apart :
    (affected : List Text) (ps : List FilePatch) (i j : ℕ) (p q : FilePatch) (k : Text)
    → validate_from affected ps ≡ ok tt
    → get_elem? ps i ≡ some p
    → get_elem? ps j ≡ some q
    → i < j
    → (has_path k (section_paths p) && has_path k (section_paths q)) ≡ false
unfolding validate_from
sections_apart affected [] i j p q k h e f l = cc
sections_apart affected (r ∷ ps) i zero p q k h e f l = absurd (omega (arith, l))
sections_apart affected (r ∷ ps) zero (suc j) p q k h e f l =
    let (next, g, m) = value_before (affect (section_paths r) affected) _ h in
    let (_, _, rest) = value_before (validate_hunks r) _ m in
    let same : r ≡ p = cc e in
    let later = affected_stays next ps j q k rest f in
    let has = (affect-has_path (section_paths r) affected next k g).0 in
    subst
      (λ (x : FilePatch). (has_path k (section_paths x) && has_path k (section_paths q)) ≡ false)
      same
      (newer (has_path k (section_paths q)) (has_path k next) (has_path k (section_paths r))
        (has_path k affected) later has)
sections_apart affected (r ∷ ps) (suc i) (suc j) p q k h e f l =
    let (next, g, m) = value_before (affect (section_paths r) affected) _ h in
    let (_, _, rest) = value_before (validate_hunks r) _ m in
    sections_apart next ps i j p q k rest e f (omega (arith, l))

-- A section names a path as its old path, as its new path or as the target of its move.
abbrev pub names_path : Text → FilePatch → Bool
names_path k p =
    let moves : Bool = elim p.move_path [ none ↦ false | some target ↦ text_eq k target ] in
    text_eq k p.old_path || (text_eq k p.new_path || moves)

insert_unless_null-has_path :
    (k path : Text) (paths : List Text)
    → is_empty k ≡ false
    → text_eq k dev_null ≡ false
    → has_path k (insert_unless_null path paths) ≡ (text_eq k path || has_path k paths)
unfolding insert_unless_null
insert_unless_null-has_path k path paths full real =
    elim (Bool-cases (is_empty path || text_eq path dev_null)) [
      | inr kept ↦ rw kept (has_path-insert_path k path paths)
      | inl left_out ↦ elim (Bool-cases (text_eq k path)) [
        | inr e ↦ rw (left_out, e)
        | inl e ↦
            let same : k ≡ path = (text_eq_iff k path).0 e in
            absurd (ground (arith, full, real, left_out, same))
      ]
    ]

not_empty : (k : Text) → is_empty k ≡ false → text_eq k [] ≡ false
unfolding is_empty
not_empty [] h = cc
not_empty (c ∷ k) h = elim (Bool-cases (text_eq (c ∷ k) [])) [
  | inl e ↦ absurd (cc ((text_eq_iff (c ∷ k) []).0 e))
  | inr e ↦ e
]

names_target :
    (k : Text) (o : Option Text)
    → is_empty k ≡ false
    → text_eq k (elim o [ none ↦ [] | some path ↦ path ])
      ≡ elim o [ none ↦ false | some target ↦ text_eq k target ]
names_target k none h = not_empty k h
names_target k (some path) h = refl

reordered : (m n o : Bool) → (m || (n || (o || false))) ≡ (o || (n || m))
reordered m n o = ground arith

section_paths-names_path :
    (k : Text) (p : FilePatch)
    → is_empty k ≡ false
    → text_eq k dev_null ≡ false
    → has_path k (section_paths p) ≡ names_path k p
unfolding section_paths has_path
section_paths-names_path k p full real =
    let target : Text = elim p.move_path [ none ↦ [] | some path ↦ path ] in
    let old = insert_unless_null p.old_path [] in
    let both = insert_unless_null p.new_path old in
    insert_unless_null-has_path k target both full real
    ∙ ap (λ b. text_eq k target || b)
        (insert_unless_null-has_path k p.new_path old full real
          ∙ ap (λ b. text_eq k p.new_path || b)
              (insert_unless_null-has_path k p.old_path [] full real))
    ∙ reordered (text_eq k target) (text_eq k p.new_path) (text_eq k p.old_path)
    ∙ ap (λ b. text_eq k p.old_path || (text_eq k p.new_path || b))
        (names_target k p.move_path full)

-- In a patch that passes validation no path, other than the empty one and /dev/null, is named by
-- two file sections, as old path, as new path or as target of a move.
pub validate_file_patches-apart :
    (ps : List FilePatch) (i j : ℕ) (p q : FilePatch) (k : Text)
    → validate_file_patches ps ≡ ok tt
    → get_elem? ps i ≡ some p
    → get_elem? ps j ≡ some q
    → i < j
    → is_empty k ≡ false
    → text_eq k dev_null ≡ false
    → (names_path k p && names_path k q) ≡ false
unfolding validate_file_patches
validate_file_patches-apart ps i j p q k h e f l full real =
    let apart = sections_apart [] ps i j p q k h e f l in
    rw (section_paths-names_path k p full real, section_paths-names_path k q full real) at apart
