-- ===== src/Config/Atomic.antt =====
-- What a file system promises, and what the creation of the configuration file makes of it.
use conwatch.Prelude.{
  ◌≡◌, ◌≢◌, ◌⊎◌, Bool-cases, inl, inr, refl, sym, ◌∙◌, Bool, true, false, Option, none, some, List,
  [], ◌∷◌, Text, arith,
}
use conwatch.Config.Default.{default_config_yaml}
use conwatch.Config.File.{
  FileSystem, temporary, write_default_config, create_missing, ensure_found, ensure_exists,
}

module _ (fs : FileSystem) where
  -- `content p w` is what a reader of the file `p` finds in `w`, if it is there. Two names are two
  -- files, a rename moves all of a file at once, and one that fails changes nothing.
  pub record IsLawful (content : fs.FilePath → fs.World → Option Text) : Type 0 where
    pub absent : (p : fs.FilePath) (w : fs.World) → fs.exists p w ≡ some false → content p w ≡ none
    pub other_name : (p : fs.FilePath) → temporary fs p ≢ p
    pub directories :
        (d q : fs.FilePath) (w : fs.World) → content q (fs.create_directories d w).1 ≡ content q w
    pub opened :
        (p q : fs.FilePath) (w : fs.World)
        → q ≢ p
        → content q (fs.open_truncated p w).1 ≡ content q w
    pub inserted :
        (p q : fs.FilePath) (w : fs.World) (t : Text)
        → q ≢ p
        → let (out, w1) = fs.open_truncated p w in content q (fs.insert t out w1).1 ≡ content q w1
    pub closed :
        (p q : fs.FilePath) (w : fs.World) (t : Text)
        → q ≢ p
        → let (out, w1) = fs.open_truncated p w in
          let (out', w2) = fs.insert t out w1 in content q (fs.close out' w2) ≡ content q w2
    pub renamed :
        (p q : fs.FilePath) (w : fs.World)
        → (fs.rename p q w).0 ≡ true
        → (content q (fs.rename p q w).1 ≡ content p w)
          × (fs.exists q (fs.rename p q w).1 ≡ some true)
    pub not_renamed :
        (p q r : fs.FilePath) (w : fs.World)
        → (fs.rename p q w).0 ≡ false
        → content r (fs.rename p q w).1 ≡ content r w
    pub bystander :
        (p q r : fs.FilePath) (w : fs.World)
        → r ≢ p
        → r ≢ q
        → content r (fs.rename p q w).1 ≡ content r w

  -- The device takes all that is written: behind its stream, a file holds the text.
  abbrev pub HasRoom : (fs.FilePath → fs.World → Option Text) → Type 0
  HasRoom content =
      (p : fs.FilePath) (w : fs.World) (t : Text)
      → let (out, w1) = fs.open_truncated p w in
        let (out', w2) = fs.insert t out w1 in content p (fs.close out' w2) ≡ some t

  -- Of every world of a list.
  abbrev pub Always : (fs.World → Type 0) → List fs.World → Type 0
  Always P [] = Unit {0}
  Always P (u ∷ us) = P u × Always P us

  module _ (content : fs.FilePath → fs.World → Option Text) where
    -- The file as it was, or the default configuration.
    abbrev pub OldOrDefault : fs.FilePath → fs.World → fs.World → Type 0
    OldOrDefault p w u = (content p u ≡ content p w) ⊎ (content p u ≡ some default_config_yaml)

    abbrev pub Unchanged : fs.FilePath → fs.World → fs.World → Type 0
    Unchanged q w u = content q u ≡ content q w

  module _ (content : fs.FilePath → fs.World → Option Text) (lawful : IsLawful content) where
    -- The three steps on the temporary file are not seen in any other.
    unseen :
        (p q : fs.FilePath) (w : fs.World)
        → q ≢ temporary fs p
        → let (out, w1) = fs.open_truncated (temporary fs p) w in
          let (out', w2) = fs.insert default_config_yaml out w1 in
          (content q w1 ≡ content q w)
          × (content q w2 ≡ content q w)
          × (content q (fs.close out' w2) ≡ content q w)
    unseen p q w apart =
        let tmp = temporary fs p in
        let a = lawful.opened tmp q w apart in
        let b = lawful.inserted tmp q w default_config_yaml apart ∙ a in
        let c = lawful.closed tmp q w default_config_yaml apart ∙ b in (a, b, c)

    write-OldOrDefault :
        HasRoom content
        → (p : fs.FilePath) (w0 w : fs.World) (seen : List fs.World) → content p w ≡ content p w0
        → Always (OldOrDefault content p w0) seen
        → let r = write_default_config fs p w seen in
          Always (OldOrDefault content p w0) r.seen
          × (r.answer ≡ some true → content p r.world ≡ some default_config_yaml)
    unfolding write_default_config
    write-OldOrDefault room p w0 w seen same before =
        let tmp = temporary fs p in
        let (out, w1) = fs.open_truncated tmp w in
        let (out', w2) = fs.insert default_config_yaml out w1 in
        let w3 = fs.close out' w2 in
        let u = unseen p p w (λ e. lawful.other_name p (sym e)) in
        let whole : (fs.rename tmp p w3).0 ≡ true
            → content p (fs.rename tmp p w3).1 ≡ some default_config_yaml =
          λ ok. (lawful.renamed tmp p w3 ok).0 ∙ room tmp w default_config_yaml in
        elim (Bool-cases (fs.rename tmp p w3).0) [
          | inl ok ↦ (
            (inr (whole ok), (inl (u.2 ∙ same), (inl (u.1 ∙ same), (inl (u.0 ∙ same), before)))),
            λ _. whole ok,
          )
          | inr failed ↦ (
            (
              inl (lawful.not_renamed tmp p p w3 failed ∙ u.2 ∙ same),
              (inl (u.2 ∙ same), (inl (u.1 ∙ same), (inl (u.0 ∙ same), before))),
            ),
            λ e. absurd (ground (arith, failed, e)),
          )
        ]

    create-OldOrDefault :
        HasRoom content
        → (p : fs.FilePath) (w : fs.World)
        → let r = create_missing fs p w in
          Always (OldOrDefault content p w) r.seen
          × (r.answer ≡ some true → content p r.world ≡ some default_config_yaml)
    unfolding create_missing
    create-OldOrDefault room p w =
        let w1 = (fs.create_directories (fs.parent_path p) w).1 in
        let same = lawful.directories (fs.parent_path p) p w in
        elim (Bool-cases (fs.create_directories (fs.parent_path p) w).0) [
          | inl ok ↦
              rw ok (write-OldOrDefault room p w w1 (w1 ∷ w ∷ []) same (inl same, (inl refl, tt)))
          | inr failed ↦ rw failed ((inl same, (inl refl, tt)), λ e. absurd (ground (arith, e)))
        ]

    -- On a device with room, where a rename moves all of a file at once: at every moment of a run the
    -- file is as it was before or holds all of the default configuration, and behind a run that
    -- answers that it made the file it does.
    pub ensure_exists-atomic :
        HasRoom content
        → (file : Text) (w : fs.World)
        → let r = ensure_exists fs file w in
          Always (OldOrDefault content (fs.path file) w) r.seen
          × (r.answer ≡ some true → content (fs.path file) r.world ≡ some default_config_yaml)
    unfolding ensure_exists
    ensure_exists-atomic room file w =
        let p = fs.path file in
        elim (fs.exists p w)
          as (λ o.
            let r = ensure_found fs o p w in
            Always (OldOrDefault content p w) r.seen
            × (r.answer ≡ some true → content p r.world ≡ some default_config_yaml)) [
              | none ↦ ((inl refl, tt), λ e. absurd (ground (arith, e)))
              | some true ↦ ((inl refl, tt), λ e. absurd (ground (arith, e)))
              | some false ↦ create-OldOrDefault room p w
            ]

    create-Unchanged :
        (p q : fs.FilePath) (w : fs.World)
        → q ≢ temporary fs p
        → q ≢ p
        → Always (Unchanged content q w) (create_missing fs p w).seen
    unfolding create_missing write_default_config
    create-Unchanged p q w apart other =
        let tmp = temporary fs p in
        let w1 = (fs.create_directories (fs.parent_path p) w).1 in
        let same = lawful.directories (fs.parent_path p) q w in
        let (out, w2) = fs.open_truncated tmp w1 in
        let (out', w3) = fs.insert default_config_yaml out w2 in
        let w4 = fs.close out' w3 in
        let u = unseen p q w1 apart in
        elim (Bool-cases (fs.create_directories (fs.parent_path p) w).0) [
          | inl ok ↦ rw ok (
            lawful.bystander tmp p q w4 apart other ∙ u.2 ∙ same,
            (u.2 ∙ same, (u.1 ∙ same, (u.0 ∙ same, (same, (refl, tt))))),
          )
          | inr failed ↦ rw failed (same, (refl, tt))
        ]

    -- A run changes no file but the configuration and its temporary, and not the configuration if
    -- that is there, at no moment and however the run ends, where a call on one file leaves those of
    -- other names as they are.
    pub ensure_exists-Unchanged :
        (file : Text) (q : fs.FilePath) (w : fs.World)
        → q ≢ temporary fs (fs.path file)
        → (q ≢ fs.path file) ⊎ (content (fs.path file) w ≢ none)
        → Always (Unchanged content q w) (ensure_exists fs file w).seen
    unfolding ensure_exists
    ensure_exists-Unchanged file q w apart other =
        let p = fs.path file in
        let made : fs.exists p w ≡ some false
            → Always (Unchanged content q w) (create_missing fs p w).seen =
          λ e. elim other [
            | inl o ↦ create-Unchanged p q w apart o
            | inr there ↦ absurd (there (lawful.absent p w e))
          ] in
        elim (fs.exists p w)
            as (λ o.
              (o ≡ some false → Always (Unchanged content q w) (create_missing fs p w).seen)
              → Always (Unchanged content q w) (ensure_found fs o p w).seen) [
                | none ↦ λ _. (refl, tt)
                | some true ↦ λ _. (refl, tt)
                | some false ↦ λ go. go refl
              ]
          made

    answered-exists :
        (p : fs.FilePath) (w : fs.World) (b : Bool)
        → (create_missing fs p w).answer ≡ some b
        → fs.exists p (create_missing fs p w).world ≡ some true
    unfolding create_missing write_default_config
    answered-exists p w b e =
        let tmp = temporary fs p in
        let w1 = (fs.create_directories (fs.parent_path p) w).1 in
        let (out, w2) = fs.open_truncated tmp w1 in
        let (out', w3) = fs.insert default_config_yaml out w2 in
        let w4 = fs.close out' w3 in ground (arith, lawful.renamed tmp p w4)

    -- Behind a run that throws nothing the file is there: another run answers that it made none,
    -- and changes nothing.
    pub ensure_exists-idempotent :
        (file : Text) (w : fs.World) (b : Bool)
        → (ensure_exists fs file w).answer ≡ some b
        → let r = ensure_exists fs file (ensure_exists fs file w).world in
          (r.answer ≡ some false) × (r.world ≡ (ensure_exists fs file w).world)
    unfolding ensure_exists
    ensure_exists-idempotent file w b e =
        let p = fs.path file in
        let there : fs.exists p (ensure_exists fs file w).world ≡ some true =
          ground (arith, answered-exists p w b) in
        rw there (refl, refl)
