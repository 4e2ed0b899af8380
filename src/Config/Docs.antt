-- ===== src/Config/Docs.antt =====
-- YAML documents as trees of nodes.
use conwatch.Prelude.{Option, none, some, List, [], ◌∷◌, Text, text_eq, if◌then◌else◌}
use conwatch.Config.Load.{Yaml}

-- A node is a scalar, a sequence, or a map from scalars.
mutual
  pub data Doc : Type 0 where
    scalar : Text → Doc
    sequence : Docs → Doc
    table : Pairs → Doc

  pub data Docs : Type 0 where
    end : Docs
    item : Doc → Docs → Docs

  pub data Pairs : Type 0 where
    done : Pairs
    pair : Text → Doc → Pairs → Pairs

abbrev pub find_pair : Pairs → Text → Option Doc
find_pair done k = none
find_pair (pair j d ps) k = if text_eq j k then some d else find_pair ps k

abbrev pub doc_child : Doc → Text → Option (Option Doc)
doc_child (table ps) k = some (find_pair ps k)
doc_child (sequence ds) k = some none
doc_child (scalar s) k = none

abbrev pub doc_string : Doc → Option Text
doc_string (scalar s) = some s
doc_string (sequence ds) = none
doc_string (table ps) = none

abbrev pub docs : Docs → List Doc
docs end = []
docs (item d ds) = d ∷ docs ds

abbrev pub doc_elements : Doc → List Doc
doc_elements (sequence ds) = docs ds
doc_elements (scalar s) = []
doc_elements (table ps) = []

abbrev pub doc_pairs : Pairs → List (Doc × Doc)
doc_pairs done = []
doc_pairs (pair k d ps) = (scalar k, d) ∷ doc_pairs ps

abbrev pub doc_entries : Doc → List (Doc × Doc)
doc_entries (table ps) = doc_pairs ps
doc_entries (scalar s) = []
doc_entries (sequence ds) = []

-- A reader of documents, with what it finds at a path.
abbrev pub reader : (Text → Option Doc) → Yaml
reader at = record {
  Node = Doc;
  load_file = at;
  child = doc_child;
  as_string = doc_string;
  elements = doc_elements;
  entries = doc_entries;
}

abbrev pub one_file : Doc → Yaml
one_file root = reader (λ path. some root)
