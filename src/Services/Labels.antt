-- ===== src/Services/Labels.antt =====
-- lib/services.ts: writing a service's row never fails on its label, which stays the row's for good.
use Prim.Native.String.{◌++◌ as append}
use operator_oss.Base.{
  ℕ, suc, ◌≡◌, ◌⊎◌, refl, subst, inl, inr, Bool, true, false, not, ◌&&◌, ◌||◌, Option, none, some,
  List, [], ◌∷◌, String, str_eq, eq_iff, eq_refl, length, arith, Bool-cases, Option-cases,
}
use operator_oss.Services.{
  Managed, Row, Supervisor, Project, Desired, is_row, row_for, taken, base_slug, fresh_slug,
  assign_slug,
}
use operator_oss.Services.Rows.{taken_elsewhere, write_row, persist}
use operator_oss.Services.Slugs.{first_free_found, first_free-taken}

-- No two rows have one label.
unfoldable pub AreDistinct : List Row → Type 0
AreDistinct [] = Unit
AreDistinct (r ∷ rows) = (taken r.slug rows ≡ false) × AreDistinct rows

abbrev pub label_of : Option Row → Option String
label_of none = none
label_of (some r) = some r.slug

taken_elsewhere-taken :
    (p n s : String) (rows : List Row) → taken s rows ≡ false → taken_elsewhere p n s rows ≡ false
unfolding taken taken_elsewhere
taken_elsewhere-taken p n s [] h = refl
taken_elsewhere-taken p n s (r ∷ rows) h =
    ground (arith, h, taken_elsewhere-taken p n s rows (ground (arith, h)))

row_for-taken :
    (p n : String) (rows : List Row) (r : Row)
    → row_for p n rows ≡ some r
    → taken r.slug rows ≡ true
unfolding row_for taken
row_for-taken p n [] r h = absurd (cc)
row_for-taken p n (x ∷ rows) r h = elim (Bool-cases (is_row p n x)) [
  | inl e ↦ ground (arith, e, h, eq_refl x.slug)
  | inr e ↦ ground (arith, row_for-taken p n rows r (ground (arith, e, h)))
]

own_label :
    (p n : String) (rows : List Row) (r : Row)
    → AreDistinct rows
    → row_for p n rows ≡ some r
    → taken_elsewhere p n r.slug rows ≡ false
unfolding AreDistinct row_for taken_elsewhere
own_label p n [] r d h = refl
own_label p n (x ∷ rows) r (d, ds) h = elim (Bool-cases (is_row p n x)) [
  | inl e ↦
      let same : x ≡ r = ground (arith, e, h) in
      ground (
        arith,
        e,
        taken_elsewhere-taken p n r.slug rows
            (subst (λ (y : Row). taken y.slug rows ≡ false) same d),
      )
  | inr e ↦
      let later : row_for p n rows ≡ some r = ground (arith, e, h) in
      ground (
        arith,
        e,
        own_label p n rows r ds later,
        row_for-taken p n rows r later,
        d,
        eq_iff x.slug r.slug,
      )
]

-- The row, where there is one, has this label.
abbrev has_label : String → Option Row → Bool
has_label slug none = true
has_label slug (some r) = str_eq r.slug slug

taken-write_row :
    (m : Managed) (slug t : String) (d : Desired) (rows : List Row)
    → has_label slug (row_for m.project_id m.name rows) ≡ true
    → taken t (write_row m slug d rows) ≡ (str_eq slug t || taken t rows)
unfolding taken write_row row_for
taken-write_row m slug t d [] h = refl
taken-write_row m slug t d (r ∷ rows) h = elim (Bool-cases (is_row m.project_id m.name r)) [
  | inl e ↦ ground (arith, e, h, eq_iff r.slug slug, eq_iff r.slug t, eq_iff slug t)
  | inr e ↦ ground (arith, e, taken-write_row m slug t d rows (ground (arith, e, h)))
]

write_row-AreDistinct :
    (m : Managed) (slug : String) (d : Desired) (rows : List Row)
    → has_label slug (row_for m.project_id m.name rows) ≡ true
    → taken_elsewhere m.project_id m.name slug rows ≡ false
    → AreDistinct rows
    → AreDistinct (write_row m slug d rows)
unfolding AreDistinct write_row row_for taken_elsewhere
write_row-AreDistinct m slug d [] h f a = (unfold taken in refl, tt)
write_row-AreDistinct m slug d (r ∷ rows) h f (a, rest) =
    elim (Bool-cases (is_row m.project_id m.name r)) [
      | inl e ↦
          rw (e, write_row)
            (
              subst (λ k. taken k rows ≡ false) ((eq_iff r.slug slug).0 (ground (arith, e, h))) a,
              rest,
            )
      | inr e ↦
          let later : has_label slug (row_for m.project_id m.name rows) ≡ true =
            ground (arith, e, h) in
          rw (e, write_row)
            (
              ground (
                arith,
                e,
                f,
                a,
                taken-write_row m slug r.slug d rows later,
                eq_iff r.slug slug,
                eq_iff slug r.slug,
              ),
              write_row-AreDistinct m slug d rows later (ground (arith, e, f)) rest,
            )
    ]

row_for-write_row :
    (m : Managed) (slug : String) (d : Desired) (rows : List Row)
    → label_of (row_for m.project_id m.name (write_row m slug d rows)) ≡ some slug
unfolding write_row row_for
row_for-write_row m slug d [] = ground (arith, eq_refl m.project_id, eq_refl m.name)
row_for-write_row m slug d (r ∷ rows) = elim (Bool-cases (is_row m.project_id m.name r)) [
  | inl e ↦ ground (arith, e, eq_refl m.project_id, eq_refl m.name)
  | inr e ↦ ground (arith, e, row_for-write_row m slug d rows)
]

module _ (slugify : String → String) (numbered : String → ℕ → String) where
  -- A label that no row has is found.
  fresh_slug_free :
      (name : String) (project : Project) (rows : List Row)
      → ((i j : ℕ)
          → numbered (base_slug slugify numbered name project) i
            ≡ numbered (base_slug slugify numbered name project) j
          → i ≡ j)
      → (s : String) × (fresh_slug slugify numbered name project rows ≡ some s)
        × (taken s rows ≡ false)
  unfolding fresh_slug
  fresh_slug_free name project rows inj =
      let base = base_slug slugify numbered name project in
      let qualified = slugify (append project.name (append "-" name)) in
      let (s, e) = first_free_found (numbered base) inj rows (suc (length rows)) 2 (omega arith) in
      let t = first_free-taken (numbered base) rows (suc (length rows)) 2 s e in
      elim (Bool-cases (taken base rows)) [
        | inr f ↦ (base, ground arith, f)
        | inl f ↦ elim (Bool-cases (not (str_eq qualified "") && not (taken qualified rows))) [
          | inl g ↦ (qualified, ground arith, ground arith)
          | inr g ↦ (s, ground (arith, f, g, e), t)
        ]
      ]

  -- What is kept: the label of an object is its row's, if it has one.
  abbrev pub IsHydrated : ℕ → Supervisor → Type 0
  IsHydrated i s =
      (s.objects i).slug ≡ label_of (row_for (s.objects i).project_id (s.objects i).name s.rows)

  persist_at :
      (i : ℕ) (project : Project) (desired : Desired) (s : Supervisor) (slug : String)
      → assign_slug slugify numbered (s.objects i) project s.rows ≡ some slug
      → taken_elsewhere (s.objects i).project_id (s.objects i).name slug s.rows ≡ false
      → (m : Managed) × (m.project_id ≡ (s.objects i).project_id)
        × (m.name ≡ (s.objects i).name)
        × (((persist slugify numbered i project desired s).0.objects i).slug ≡ some slug)
        × ((persist slugify numbered i project desired s).1 ≡ true)
        × ((persist slugify numbered i project desired s).0.rows ≡ write_row m slug desired s.rows)
  unfolding persist
  persist_at i project desired s slug e f = (
    record (s.objects i) { slug = some slug },
    refl,
    refl,
    ground (arith, e, f),
    ground (arith, e, f),
    ground (arith, e, f),
  )

  -- The write succeeds under this label.
  record IsLabelled (i : ℕ) (project : Project) (desired : Desired) (s : Supervisor) (slug : String)
      : Type 0 where
    assigned : assign_slug slugify numbered (s.objects i) project s.rows ≡ some slug
    unique : taken_elsewhere (s.objects i).project_id (s.objects i).name slug s.rows ≡ false
    own : has_label slug (row_for (s.objects i).project_id (s.objects i).name s.rows) ≡ true
    origin :
        (label_of (row_for (s.objects i).project_id (s.objects i).name s.rows) ≡ some slug)
        ⊎ (taken slug s.rows ≡ false)

  label :
      (i : ℕ) (project : Project) (desired : Desired) (s : Supervisor)
      → ((j k : ℕ)
          → numbered (base_slug slugify numbered (s.objects i).name project) j
            ≡ numbered (base_slug slugify numbered (s.objects i).name project) k
          → j ≡ k)
      → AreDistinct s.rows
      → IsHydrated i s
      → (slug : String) × IsLabelled i project desired s slug
  unfolding assign_slug
  label i project desired s inj d h =
      let m = s.objects i in
      elim (Option-cases (row_for m.project_id m.name s.rows)) [
        | inl n ↦
            let (slug, e, t) = fresh_slug_free m.name project s.rows inj in
            let bare : m.slug ≡ none = ground (arith, h, n) in
            (
              slug,
              record {
                assigned = rw (bare, assign_slug) e;
                unique = taken_elsewhere-taken m.project_id m.name slug s.rows t;
                own = rw n refl;
                origin = inr t;
              },
            )
        | inr (r, n) ↦
            let kept : m.slug ≡ some r.slug = ground (arith, h, n) in
            (
              r.slug,
              record {
                assigned = rw (kept, assign_slug) refl;
                unique = own_label m.project_id m.name s.rows r d n;
                own = rw n (eq_refl r.slug);
                origin = inl (rw n refl);
              },
            )
      ]

  -- Writing the row of a service never fails on its label, whatever labels the other services have:
  -- a service that has a row keeps its label, and another gets one that no row has. The object and
  -- the row have the same label afterwards, and no two rows have one. It needs that the object's
  -- label is its row's, as hydrate makes it, and that different numbers make different labels.
  pub persist_keeps_label :
      (i : ℕ) (project : Project) (desired : Desired) (s : Supervisor)
      → ((j k : ℕ)
          → numbered (base_slug slugify numbered (s.objects i).name project) j
            ≡ numbered (base_slug slugify numbered (s.objects i).name project) k
          → j ≡ k)
      → AreDistinct s.rows
      → IsHydrated i s
      → ((persist slugify numbered i project desired s).1 ≡ true)
        × AreDistinct (persist slugify numbered i project desired s).0.rows
        × ((slug : String) × (((persist slugify numbered i project desired s).0.objects i).slug
              ≡ some slug)
            × (label_of (
                  row_for
                    (s.objects i).project_id
                    (s.objects i).name
                    (persist slugify numbered i project desired s).0.rows)
                ≡ some slug)
            × ((label_of (row_for (s.objects i).project_id (s.objects i).name s.rows) ≡ some slug)
                ⊎ (taken slug s.rows ≡ false)))
  persist_keeps_label i project desired s inj d h =
      let (slug, l) = label i project desired s inj d h in
      let (m, project_id, name, object, ok, rows) =
        persist_at i project desired s slug l.assigned l.unique in
      let distinct =
        write_row-AreDistinct m slug desired s.rows (rw (project_id, name) l.own)
          (rw (project_id, name) l.unique) d in
      (
        ok,
        rw rows distinct,
        (
          slug,
          object,
          rw (rows, ← project_id, ← name) (row_for-write_row m slug desired s.rows),
          l.origin,
        ),
      )
