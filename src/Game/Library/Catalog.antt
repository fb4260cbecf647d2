-- ===== src/Game/Library/Catalog.antt =====
-- Every story of a loaded library is found by its name and by its key.
use zorkd.Base.{
  subst, ℕ, suc, ◌+◌, ◌≡◌, refl, ◌∙◌, none, some, List, [], ◌∷◌, ◌++◌, arith, length, str_eq_iff,
  lookup, lookup-insert, Option-cases, Bool-cases, inl, inr, All, All-append, length-append,
}
use zorkd.Errors.{ok, Result-cases}
use zorkd.Game.Types.{StoryKey}
use zorkd.Game.SaveName.{is_empty}
use zorkd.Game.Runner.{Engine, Entry}
use zorkd.Game.Library.{
  Source, Library, find_id, find_key, all, empty, register, len, add, load_all, new_library,
  entry_of,
}

module _ {Story : Type 0} where
  pub record Found (lib : Library Story) (e : Entry Story) : Type 0 where
    pub by_name : find_id lib e.id ≡ some e
    pub by_hash : find_key lib e.key ≡ some e

  register-Found :
      (lib : Library Story) (new e : Entry Story)
      → find_id lib new.id ≡ none
      → find_key lib new.key ≡ none
      → Found lib e
      → Found (register lib new) e
  unfolding find_id find_key register
  register-Found lib new e p q f = record {
    by_name =
        lookup-insert new.id e.id new lib.by_id ∙ ground (arith, str_eq_iff new.id e.id, f.by_name);
    by_hash =
        lookup-insert new.key e.key new lib.by_key
        ∙ ground (arith, str_eq_iff new.key e.key, f.by_hash);
  }

  Found-map :
      (P Q : Entry Story → Type 0) (es : List (Entry Story))
      → ((e : Entry Story) → P e → Q e)
      → All P es
      → All Q es
  Found-map P Q [] f a = tt
  Found-map P Q (e ∷ es) f a = (f e a.0, Found-map P Q es f a.1)

  register-new : (lib : Library Story) (new : Entry Story) → Found (register lib new) new
  unfolding find_id find_key register
  register-new lib new = record {
    by_name = lookup-insert new.id new.id new lib.by_id ∙ ground (arith, str_eq_iff new.id new.id);
    by_hash =
        lookup-insert new.key new.key new lib.by_key ∙ ground (arith, str_eq_iff new.key new.key);
  }

  register-All :
      (lib : Library Story) (new : Entry Story)
      → find_id lib new.id ≡ none
      → find_key lib new.key ≡ none
      → All (Found lib) (all lib)
      → All (Found (register lib new)) (all lib ++ new ∷ [])
  register-All lib new p q a =
      All-append (Found (register lib new)) (all lib) (new ∷ [])
        (Found-map (Found lib) (Found (register lib new)) (all lib)
          (λ e f. register-Found lib new e p q f) a)
        (register-new lib new, tt)

module _ {Story Machine : Type 0} (engine : Engine Story Machine) (sha256 : List ℕ → StoryKey) where
  -- What a round that went through has done.
  record Added (lib : Library Story) (src : Source) (lib' : Library Story) : Type 0 where
    story : Story
    fresh_id : find_id lib src.id ≡ none
    fresh_key : find_key lib (sha256 src.image) ≡ none
    loaded : engine.load_story src.image ≡ ok story
    became : lib' ≡ register lib (entry_of engine sha256 src story)

  add-Added :
      (lib : Library Story) (src : Source) (lib' : Library Story)
      → add engine sha256 lib src ≡ ok lib'
      → Added lib src lib'
  unfolding add find_id find_key
  add-Added lib src lib' h = elim (Bool-cases (is_empty src.id)) [
    | inl nameless ↦ absurd (ground arith)
    | inr named ↦ elim (Option-cases (lookup src.id lib.by_id)) [
      | inr (e, taken) ↦ absurd (ground arith)
      | inl fresh ↦ elim (Result-cases (engine.load_story src.image)) [
        | inr (e, broken) ↦ absurd (ground arith)
        | inl (story, loaded) ↦ elim (Option-cases (lookup (sha256 src.image) lib.by_key)) [
          | inr (e, taken) ↦ absurd (ground arith)
          | inl new ↦ record {
            story = story;
            fresh_id = fresh;
            fresh_key = new;
            loaded = loaded;
            became = ground arith;
          }
        ]
      ]
    ]
  ]

  -- A library in which every story is found under its own name and key.
  record IsCatalog (lib : Library Story) (count : ℕ) : Type 0 where
    found : All (Found lib) (all lib)
    counted : length (all lib) ≡ count

  add-IsCatalog :
      (lib : Library Story) (src : Source) (lib' : Library Story) (n : ℕ)
      → IsCatalog lib n
      → add engine sha256 lib src ≡ ok lib'
      → IsCatalog lib' (suc n)
  unfolding all register
  add-IsCatalog lib src lib' n c h =
      let added = add-Added lib src lib' h in
      let entry = entry_of engine sha256 src added.story in
      rw (added.became) (record {
        found = register-All lib entry added.fresh_id added.fresh_key c.found;
        counted = omega (arith, length-append lib.order (entry ∷ []), c.counted);
      })

  load_all-IsCatalog :
      (srcs : List Source) (lib lib' : Library Story) (n : ℕ)
      → IsCatalog lib n
      → load_all engine sha256 lib srcs ≡ ok lib'
      → IsCatalog lib' (n + length srcs)
  unfolding load_all
  load_all-IsCatalog [] lib lib' n c h =
      subst (λ l. IsCatalog l (n + 0)) (ground arith) (subst (IsCatalog lib) (omega arith) c)
  load_all-IsCatalog (src ∷ rest) lib lib' n c h = elim (Result-cases (add engine sha256 lib src)) [
    | inr (e, p) ↦ absurd (ground arith)
    | inl (next, p) ↦ subst (IsCatalog lib') (omega arith) (
        load_all-IsCatalog rest next lib' (suc n) (add-IsCatalog lib src next n c p) (ground arith))
  ]

  -- A library that loaded holds one story for each source, and finds each by its own name and its
  -- own key: no two stories of it share either.
  pub new_library-IsCatalog :
      (srcs : List Source) (lib : Library Story)
      → new_library engine sha256 srcs ≡ ok lib
      → All (Found lib) (all lib) × (len lib ≡ length srcs)
  unfolding new_library all len
  new_library-IsCatalog [] lib h = absurd (ground arith)
  new_library-IsCatalog (src ∷ rest) lib h =
      let c =
        load_all-IsCatalog (src ∷ rest) empty lib 0
          (record { found = unfold empty in tt; counted = unfold empty in refl }) h in
      (c.found, omega (arith, c.counted))
