-- ===== src/Session/Dsn.antt =====
-- `corm_dsn_parse` of src/corm.c: the scheme of a data source name chooses the driver.
use corm.Base.{
  ◌≡◌, refl, true, false, List, [], ◌∷◌, ◌++◌, Option, none, some, ◌==◌, Text, codes, BackendType,
  sqlite, mysql, postgres,
}

-- `strncmp(prefix, text, strlen(prefix)) == 0`: what stands behind the prefix, if the text starts with it.
unfoldable pub behind : Text → Text → Option Text
behind [] text = some text
behind (p ∷ ps) [] = none
behind (p ∷ ps) (c ∷ cs) = elim (p == c) [ true ↦ behind ps cs | false ↦ none ]

-- The tests of one scheme after the other.
unfoldable pub dsn_schemes : List (Text × BackendType) → Text → BackendType × Text
unfolding behind
dsn_schemes [] dsn = (sqlite, dsn)
dsn_schemes ((prefix, type) ∷ rest) dsn = elim (behind prefix dsn) [
  | some body ↦ (type, body)
  | none ↦ dsn_schemes rest dsn
]

abbrev pub schemes : List (Text × BackendType)
schemes =
    (codes "sqlite3://", sqlite)
    ∷ (codes "sqlite://", sqlite)
    ∷ (codes "mysql://", mysql)
    ∷ (codes "postgres://", postgres)
    ∷ (codes "postgresql://", postgres)
    ∷ []

unfoldable pub dsn_parse : Text → BackendType × Text
unfolding dsn_schemes
dsn_parse dsn = dsn_schemes schemes dsn

-- The scheme that the documentation names for a driver.
unfoldable pub scheme_of : BackendType → Text
scheme_of sqlite = codes "sqlite3://"
scheme_of mysql = codes "mysql://"
scheme_of postgres = codes "postgresql://"

-- A name made of a driver's scheme and any text parses to that driver and that text.
pub dsn_parse-scheme_of :
    (type : BackendType) (body : Text) → dsn_parse (scheme_of type ++ body) ≡ (type, body)
unfolding dsn_parse scheme_of
dsn_parse-scheme_of sqlite body = refl
dsn_parse-scheme_of mysql body = refl
dsn_parse-scheme_of postgres body = refl
