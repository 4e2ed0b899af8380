-- ===== src/Config/Resolve.antt =====
-- Resolution per interface, over the table of overrides and over the file that it is read from.
use conwatch.Prelude.{
  ◌≡◌, refl, sym, ap, ◌∙◌, subst, codes, ◌≢◌, Option, none, some, List, [], ◌∷◌, ◌++◌, Text,
  text_eq, text_eq_iff, if◌then◌else◌, arith, Option-cases, Bool-cases, inl, inr,
}
use conwatch.Prelude.Map.{text_key, lookup, insert, lookup-insert}
use mathlib.Core.List.{append-nil, append_assoc}
use conwatch.Config.Load.{
  Yaml, ◌>>=◌, optional_string, child_string, push_patterns, parse_override, insert_overrides,
  label_or,
}
use conwatch.Config.{effective_label, Config, InterfaceOverride, value_or, resolve_label}

pub >>=-eq-some {ℓ κ} :
    {A : Type ℓ} {B : Type κ} (m : Option A) (f : A → Option B) {b : B}
    → (m >>= f) ≡ some b
    → (a : A) × (m ≡ some a) × (f a ≡ some b)
>>=-eq-some none f h = absurd (ground arith)
>>=-eq-some (some a) f h = (a, refl, h)

abbrev pub with_override : Text → InterfaceOverride → Config → Config
with_override k ov cfg = record cfg { interfaces = insert k ov cfg.interfaces }

-- The label of an interface that has a name is not empty.
pub resolve_label_nonempty :
    (cfg : Config) (iface : Text) → iface ≢ [] → resolve_label cfg iface ≢ []
unfolding effective_label
resolve_label_nonempty cfg iface named e = ground arith

module _ (yaml : Yaml) where
  open yaml use {Node, as_string, elements, child}

  -- All strings of a list of nodes, or none if one of them is no string.
  abbrev pub strings : List Node → Option (List Text)
  strings [] = some []
  strings (n ∷ ns) = do s ← as_string n; ss ← strings ns; some (s ∷ ss)

  -- The loop of `push_back`s adds the strings of all elements, in their order.
  pub push_patterns_lem :
      (ns : List Node) (ps : List Text)
      → push_patterns yaml ns ps ≡ (do ss ← strings ns; some (ps ++ ss))
  unfolding push_patterns
  push_patterns_lem [] ps = rw append-nil
  push_patterns_lem (n ∷ ns) ps = elim (Option-cases (as_string n)) [
    | inl e ↦ rw e
    | inr (s, e) ↦
        rw (e, push_patterns_lem ns (ps ++ s ∷ []))
          (elim (Option-cases (strings ns)) [
            | inl f ↦ rw f
            | inr (ss, f) ↦ rw (f, append_assoc ps (s ∷ []) ss)
          ])
  ]

  -- The string at a key: none where the key is absent, and an error where its value is no string.
  abbrev pub string_of : Option Node → Option (Option Text)
  string_of none = some none
  string_of (some n) = do s ← as_string n; some (some s)

  abbrev string_found : Option (Option Node) → Option (Option Text)
  string_found none = none
  string_found (some c) = string_of c

  abbrev pub value_at : Node → Text → Option (Option Text)
  value_at n k = string_found (child n k)

  pub child_string-value_at : (n : Node) (k : Text) → child_string yaml n k ≡ value_at n k
  unfolding child_string optional_string
  child_string-value_at n k = elim (Option-cases (child n k)) [
    | inl e ↦ ground (arith, e)
    | inr (c, e) ↦ elim (Option-cases c) [
      | inl f ↦ ground (arith, e, f)
      | inr (m, f) ↦ ground (arith, e, f)
    ]
  ]

  -- The values that an override takes from its node: the label is the name where it is absent.
  pub record Describes (name : Text) (n : Node) (ov : InterfaceOverride) : Type 0 where
    pub label :
        (l : Option Text) × (value_at n (codes "label") ≡ some l) × (ov.label ≡ value_or l name)
    pub target : value_at n (codes "target") ≡ some ov.target
    pub target6 : value_at n (codes "target6") ≡ some ov.target6
    pub gateway4 : value_at n (codes "gateway_ip_override4") ≡ some ov.gateway_ip_override4
    pub gateway6 : value_at n (codes "gateway_ip_override6") ≡ some ov.gateway_ip_override6

  -- The value of the last entry with this key; `before` if there is none.
  abbrev pub last_value : Text → List (Node × Node) → Option Node → Option Node
  last_value k [] before = before
  last_value k ((key, n) ∷ its) before = last_value k its (elim (as_string key) [
    | none ↦ before
    | some name ↦ if text_eq name k then some n else before
  ])

  abbrev pub Read : Text → Option Node → Option InterfaceOverride → Type 0
  Read k none o = o ≡ none
  Read k (some n) o = (ov : InterfaceOverride) × (o ≡ some ov) × Describes k n ov

  label_or-value_or : (l : Option Text) (name : Text) → label_or l name ≡ value_or l name
  label_or-value_or none name = refl
  label_or-value_or (some s) name = refl

  parse_override-Describes :
      (key n : Node) (name : Text) (ov : InterfaceOverride)
      → as_string key ≡ some name
      → parse_override yaml (key, n) ≡ some ov
      → Describes name n ov
  unfolding parse_override
  parse_override-Describes key n name ov e h =
      let (name', e0, h0) = >>=-eq-some (as_string key) _ h in
      let (label, e1, h1) = >>=-eq-some (child_string yaml n (codes "label")) _ h0 in
      let (target, e2, h2) = >>=-eq-some (child_string yaml n (codes "target")) _ h1 in
      let (target6, e3, h3) = >>=-eq-some (child_string yaml n (codes "target6")) _ h2 in
      let (gw4, e4, h4) = >>=-eq-some (child_string yaml n (codes "gateway_ip_override4")) _ h3 in
      let (gw6, e5, h5) = >>=-eq-some (child_string yaml n (codes "gateway_ip_override6")) _ h4 in
      let at = λ (k : Text). sym (child_string-value_at n k) in
      let same : name' ≡ name = ground (arith, e, e0) in
      record {
        label = (
          label,
          at (codes "label") ∙ e1,
          ground (arith, h5) ∙ label_or-value_or label name' ∙ ap (value_or label) same,
        );
        target = at (codes "target") ∙ e2 ∙ ground (arith, h5);
        target6 = at (codes "target6") ∙ e3 ∙ ground (arith, h5);
        gateway4 = at (codes "gateway_ip_override4") ∙ e4 ∙ ground (arith, h5);
        gateway6 = at (codes "gateway_ip_override6") ∙ e5 ∙ ground (arith, h5);
      }

  -- After the entries are read, the override of a name is described by the last entry of the name,
  -- and what was there before if no entry names it; the other fields are as before.
  pub insert_overrides-Read :
      (its : List (Node × Node)) (cfg new : Config) (k : Text) (before : Option Node)
      → Read k before (lookup k cfg.interfaces)
      → insert_overrides yaml its cfg ≡ some new
      → Read k (last_value k its before) (lookup k new.interfaces)
        × (new.include ≡ cfg.include)
        × (new.exclude ≡ cfg.exclude)
        × (new.default_target ≡ cfg.default_target)
        × (new.default_target6 ≡ cfg.default_target6)
  unfolding insert_overrides
  insert_overrides-Read [] cfg new k before r e =
      let same : cfg ≡ new = ground arith in
      (
        subst (λ c. Read k before (lookup k c.interfaces)) same r,
        ap (λ c. c.include) (sym same),
        ap (λ c. c.exclude) (sym same),
        ap (λ c. c.default_target) (sym same),
        ap (λ c. c.default_target6) (sym same),
      )
  insert_overrides-Read ((key, n) ∷ its) cfg new k before r e =
      let (ov, p, e1) = >>=-eq-some (parse_override yaml (key, n)) _ e in
      let (name, q, e2) = >>=-eq-some (as_string key) _ e1 in
      let cfg' = record cfg { interfaces = insert name ov cfg.interfaces } in
      let d = parse_override-Describes key n name ov q p in
      let here : Option Node = if text_eq name k then some n else before in
      let r' : Read k here (lookup k cfg'.interfaces) =
        subst (Read k here) (sym (lookup-insert name k ov cfg.interfaces))
          (elim (Bool-cases (text_eq name k)) [
            | inl same ↦
                let d' = subst (λ x. Describes x n ov) ((text_eq_iff name k).0 same) d in
                rw same (ov, refl, d')
            | inr other ↦ rw other r
          ]) in
      let (read, k1, k2, k3, k4) = insert_overrides-Read its cfg' new k here r' e2 in
      (rw q read, k1, k2, k3, k4)
