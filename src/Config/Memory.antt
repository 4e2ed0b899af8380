-- ===== src/Config/Memory.antt =====
-- A file system in memory.
use conwatch.Prelude.{
  ◌≡◌, ◌≢◌, inl, inr, refl, Bool, true, false, Bool-cases, Option, none, some, [], ◌∷◌, ◌++◌, Text,
  codes, text_eq, text_eq_iff, arith, if◌then◌else◌,
}
use conwatch.Config.File.{FileSystem}
use conwatch.Config.Atomic.{IsLawful, HasRoom}
use conwatch.Config.Location.{IsPosix, ends_in_slash}

-- The files by name; every directory is there.
abbrev pub Files : Type 0
Files = Text → Option Text

abbrev pub put : Text → Option Text → Files → Files
put p c w = λ q. if text_eq q p then c else w q

abbrev pub is_there : Option Text → Bool
is_there none = false
is_there (some t) = true

abbrev pub after : Option Text → Text → Option Text
after none t = none
after (some s) t = some (s ++ t)

abbrev pub moved : Option Text → Text → Text → Files → Bool × Files
moved none p q w = (false, w)
moved (some t) p q w = (true, put q (some t) (put p none w))

abbrev pub joined : Text → Text → Text
joined p q = if ends_in_slash p then p ++ q else p ++ 47 ∷ q

abbrev pub memory : FileSystem
memory = record {
  FilePath = Text;
  path = λ t. t;
  text = λ p. p;
  slash = joined;
  append = λ p t. p ++ t;
  parent_path = λ p. p;
  World = Files;
  exists = λ p w. some (is_there (w p));
  create_directories = λ p w. (true, w);
  rename = λ p q w. moved (w p) p q w;
  Stream = Text;
  open_truncated = λ p w. (p, put p (some []) w);
  insert = λ t p w. (p, put p (after (w p) t) w);
  close = λ p w. w;
}

abbrev pub content : Text → Files → Option Text
content p w = w p

pub text_eq_refl : (p : Text) → text_eq p p ≡ true
text_eq_refl p = (text_eq_iff p p).1 refl

text_eq-≢ : (q p : Text) → q ≢ p → text_eq q p ≡ false
text_eq-≢ q p apart = elim (Bool-cases (text_eq q p)) [
  | inl same ↦ absurd (apart ((text_eq_iff q p).0 same))
  | inr differ ↦ differ
]

longer : (p : Text) → p ++ codes ".tmp" ≢ p
longer [] e = cc
longer (c ∷ p) e = longer p (cc)

pub memory-IsLawful : IsLawful memory content
memory-IsLawful = record {
  absent = λ p w e. ground (arith, e);
  other_name = longer;
  directories = λ d q w. refl;
  opened = λ p q w apart. rw (text_eq-≢ q p apart) refl;
  inserted = λ p q w t apart. rw (text_eq-≢ q p apart) refl;
  closed = λ p q w t apart. refl;
  renamed = λ p q w ok. ground (arith, text_eq_refl q, ok);
  not_renamed = λ p q r w failed. ground (arith, failed);
  bystander = λ p q r w p' q'. ground (arith, text_eq-≢ r p p', text_eq-≢ r q q');
}

pub memory-HasRoom : HasRoom memory content
memory-HasRoom p w t = rw (text_eq_refl p) refl

pub memory-IsPosix : IsPosix memory
memory-IsPosix = record {
  text_path = λ t. refl;
  text_slash = λ p q plain relative. ground (arith, plain);
}
