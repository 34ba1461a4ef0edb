-- ===== src/Migration/Samples.antt =====
-- A hash for the tests: the texts of what it is given.
use icingadb.Prelude.{str_append, [], ◌∷◌}
use icingadb.Migration.{text, number, negative, digits, Hash}

abbrev pub hash : Hash
hash [] = ""
hash (text t ∷ fs) = str_append t (str_append "/" (hash fs))
hash (number n ∷ fs) = hash fs
hash (negative n ∷ fs) = hash fs
hash (digits n ∷ fs) = hash fs
