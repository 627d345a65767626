-- ===== src/Control/Url/Splitter.antt =====
-- ts-control/src/url.rs: `parse` and `join_path`. A character of the program's literals is a byte.
use tailscale_vita.Prelude.{
  ℕ, [], ◌∷◌, ◌++◌, is_empty, Option, none, some, Result, ok, err, ◌>>=◌, ok_or, eqb, ◌&&◌, ◌==◌,
  list_eq, nat_eq, if◌then◌else◌,
}
use tailscale_vita.Prelude.Bytes.{codes}
use tailscale_vita.Control.Wire.{Text}
use tailscale_vita.Control.Parse.{strip_prefix, rsplit_once, from_str_radix}

-- The messages of `ControlError::Url`.
pub data UrlError : Type 0 where
  missing_scheme bad_scheme bad_port : UrlError

pub record ParsedUrl : Type 0 where
  pub scheme : Text
  pub host : Text
  pub port : ℕ
  pub path : Text

-- `split_once` with a text to look for, which is not empty.
unfoldable pub split_once_str : (sep : Text) → Text → Option (Text × Text)
split_once_str sep [] = none
split_once_str sep (c ∷ cs) =
    let later = split_once_str sep cs in
    elim (strip_prefix sep (c ∷ cs)) [
      | some after ↦ some ([], after)
      | none ↦ elim later [ none ↦ none | some (a, b) ↦ some (c ∷ a, b) ]
    ]

-- `find('/')` and the two slices, or the whole and "/".
unfoldable pub split_path : Text → Text × Text
split_path [] = ([], codes "/")
split_path (c ∷ cs) =
    let (authority, path) = split_path cs in
    if eqb c 47 then ([], c ∷ cs) else (c ∷ authority, path)

abbrev pub default_port : Text → Result UrlError ℕ
default_port scheme =
    if scheme == codes "http"
    then ok 80
    else if scheme == codes "https"
    then ok 443
    else err bad_scheme

-- The host and the port of an authority.
unfoldable pub host_port : (default : ℕ) → Text → Result UrlError (Text × ℕ)
host_port default authority = elim (rsplit_once 58 authority) [
  | none ↦ ok (authority, default)
  | some (h, p) ↦ ok_or (from_str_radix 10 65536 p) bad_port >>= λ port. ok (h, port)
]

unfoldable pub parse : Text → Result UrlError ParsedUrl
parse url = ok_or (split_once_str (codes "://") url) missing_scheme >>= λ (scheme, rest).
    default_port scheme >>= λ default.
    let (authority, path) = split_path rest in
    host_port default authority >>= λ (host, port).
    ok (record { scheme = scheme; host = host; port = port; path = path })

-- `trim_end_matches(c)`
unfoldable pub trim_end : (c : ℕ) → Text → Text
trim_end c [] = []
trim_end c (d ∷ ds) = let rest = trim_end c ds in if eqb d c && is_empty rest then [] else d ∷ rest

-- `starts_with('/')` and the slash that is put in front otherwise.
abbrev pub slashed : Text → Text
slashed [] = 47 ∷ []
slashed (c ∷ cs) = if eqb c 47 then c ∷ cs else 47 ∷ c ∷ cs

unfoldable pub join_path : (base suffix : Text) → Text
join_path base suffix = trim_end 47 base ++ slashed suffix
