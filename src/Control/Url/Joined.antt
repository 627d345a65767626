-- ===== src/Control/Url/Joined.antt =====
-- What `parse` makes of what `join_path` gives.
use tailscale_vita.Prelude.{
  ℕ, zero, suc, ◌<◌, ◌≡◌, refl, ap, ◌∙◌, inl, inr, Bool, true, false, [], ◌∷◌, ◌++◌, append_assoc,
  length, is_empty, All, All-append, Option, none, some, Result, ok, err, ◌>>=◌, ok_or, eqb,
  if◌then◌else◌, Bool-cases, arith,
}
use tailscale_vita.Prelude.Bytes.{codes}
use tailscale_vita.Control.Wire.{Text}
use tailscale_vita.Control.Parse.{rsplit_once, from_str_radix}
use tailscale_vita.Control.Url.Splitter.{
  UrlError, bad_port, ParsedUrl, split_once_str, split_path, default_port, host_port, parse,
  trim_end, slashed, join_path,
}

abbrev pub Lacks : ℕ → Text → Type 0
Lacks c xs = All (λ d. eqb d c ≡ false) xs

abbrev pub slashes : ℕ → Text
slashes zero = []
slashes (suc n) = 47 ∷ slashes n

abbrev pub authority : Text → Option Text → Text
authority host none = host
authority host (some port) = host ++ 58 ∷ port

-- A port may only be left out where the host has no colon, and has none itself.
abbrev pub PortFits : Text → Option Text → Type 0
PortFits host none = Lacks 58 host
PortFits host (some port) = Lacks 58 port × Lacks 47 port

abbrev pub port_of : ℕ → Option Text → Result UrlError ℕ
port_of default none = ok default
port_of default (some port) = ok_or (from_str_radix 10 65536 port) bad_port

split_once_str-append :
    (scheme rest : Text)
    → Lacks 58 scheme
    → split_once_str (codes "://") (scheme ++ codes "://" ++ rest) ≡ some (scheme, rest)
unfolding split_once_str
split_once_str-append [] rest lacks = refl
split_once_str-append (c ∷ scheme) rest (other, lacks) =
    let differs = flipped c other in
    rw (differs, split_once_str-append scheme rest lacks, split_once_str) refl
  where
    flipped : (c : ℕ) → eqb c 58 ≡ false → eqb 58 c ≡ false
    flipped c h = ground arith

split_path-slashed : (path : Text) → split_path (slashed path) ≡ ([], slashed path)
unfolding split_path
split_path-slashed [] = refl
split_path-slashed (c ∷ cs) = in_case (eqb c 47) refl
  where
    in_case :
        (slash : Bool)
        → eqb c 47 ≡ slash
        → split_path (if slash then c ∷ cs else 47 ∷ c ∷ cs)
          ≡ ([], if slash then c ∷ cs else 47 ∷ c ∷ cs)
    in_case true e = rw (e, split_path) refl
    in_case false e = refl

split_path-append :
    (host path : Text) → Lacks 47 host → split_path (host ++ slashed path) ≡ (host, slashed path)
unfolding split_path
split_path-append [] path lacks = split_path-slashed path
split_path-append (c ∷ host) path (other, lacks) =
    rw (other, split_path-append host path lacks) refl

rsplit_once-none : (xs : Text) → Lacks 58 xs → rsplit_once 58 xs ≡ none
unfolding rsplit_once
rsplit_once-none [] lacks = refl
rsplit_once-none (c ∷ xs) (other, lacks) = rw (rsplit_once-none xs lacks, other) refl

rsplit_once-append :
    (host port : Text) → Lacks 58 port → rsplit_once 58 (host ++ 58 ∷ port) ≡ some (host, port)
unfolding rsplit_once
rsplit_once-append [] port lacks = rw (rsplit_once-none port lacks) refl
rsplit_once-append (c ∷ host) port lacks = rw (rsplit_once-append host port lacks) refl

trim_end-slashes : (n : ℕ) → trim_end 47 (slashes n) ≡ []
unfolding trim_end
trim_end-slashes zero = refl
trim_end-slashes (suc n) = rw (trim_end-slashes n) refl

trim_end-Lacks : (xs : Text) (n : ℕ) → Lacks 47 xs → trim_end 47 (xs ++ slashes n) ≡ xs
unfolding trim_end
trim_end-Lacks [] n lacks = trim_end-slashes n
trim_end-Lacks (x ∷ xs) n (other, lacks) = rw (trim_end-Lacks xs n lacks, other) refl

is_empty-append : (xs ys : Text) → is_empty ys ≡ false → is_empty (xs ++ ys) ≡ false
is_empty-append [] ys h = h
is_empty-append (x ∷ xs) ys h = refl

trim_end-append :
    (xs ys : Text)
    → is_empty (trim_end 47 ys) ≡ false
    → trim_end 47 (xs ++ ys) ≡ xs ++ trim_end 47 ys
unfolding trim_end
trim_end-append [] ys h = refl
trim_end-append (x ∷ xs) ys h = elim (Bool-cases (eqb x 47)) [
  | inl slash ↦ rw (slash, trim_end-append xs ys h, is_empty-append xs (trim_end 47 ys) h) refl
  | inr other ↦ rw (other, trim_end-append xs ys h) refl
]

-- The base with what `join_path` takes off its end.
abbrev pub base_url : (scheme host : Text) → Option Text → ℕ → Text
base_url scheme host port n = scheme ++ codes "://" ++ authority host port ++ slashes n

host_port-authority :
    (default : ℕ) (host : Text) (port : Option Text)
    → PortFits host port
    → host_port default (authority host port) ≡ (port_of default port >>= λ p. ok (host, p))
unfolding host_port
host_port-authority default host none fits = rw (rsplit_once-none host fits, host_port) refl
host_port-authority default host (some port) (fits, _) =
    rw (rsplit_once-append host port fits, host_port) refl

authority-Lacks :
    (host : Text) (port : Option Text)
    → Lacks 47 host
    → PortFits host port
    → Lacks 47 (authority host port)
authority-Lacks host none lacks fits = lacks
authority-Lacks host (some port) lacks (_, fits) =
    All-append (λ d. eqb d 47 ≡ false) host (58 ∷ port) lacks (refl, fits)

authority-is_empty :
    (host : Text) (port : Option Text) → 0 < length host → is_empty (authority host port) ≡ false
authority-is_empty [] port h = absurd (omega arith)
authority-is_empty (c ∷ host) none h = refl
authority-is_empty (c ∷ host) (some port) h = refl

join_path-base_url :
    (scheme host : Text) (port : Option Text) (n : ℕ) (suffix : Text)
    → 0 < length host
    → Lacks 47 host
    → PortFits host port
    → join_path (base_url scheme host port n) suffix
      ≡ scheme ++ codes "://" ++ (authority host port ++ slashed suffix)
unfolding join_path
join_path-base_url scheme host port n suffix some_host lacks fits =
    ap (λ xs. xs ++ slashed suffix)
      (ap (trim_end 47) (append_assoc (scheme ++ codes "://") (authority host port) (slashes n))
        ∙ trim_end-append (scheme ++ codes "://") (authority host port ++ slashes n)
            (rw trimmed (authority-is_empty host port some_host))
        ∙ ap (λ xs. (scheme ++ codes "://") ++ xs) trimmed)
    ∙ append_assoc (scheme ++ codes "://") (authority host port) (slashed suffix)
  where
    trimmed : trim_end 47 (authority host port ++ slashes n) ≡ authority host port
    trimmed = trim_end-Lacks (authority host port) n (authority-Lacks host port lacks fits)

bind-bind :
    {A B C : Type 0} (r : Result UrlError A) (f : A → B) (k : B → Result UrlError C)
    → ((r >>= λ a. ok (f a)) >>= k) ≡ (r >>= λ a. k (f a))
bind-bind (ok a) f k = refl
bind-bind (err e) f k = refl

abbrev url_of : (scheme path : Text) → Text × ℕ → Result UrlError ParsedUrl
url_of scheme path (host, port) =
    ok (record { scheme = scheme; host = host; port = port; path = path })

split_path-host_port :
    (r : Result UrlError ℕ) (scheme host : Text) (port : Option Text) (suffix : Text)
    → Lacks 47 host
    → PortFits host port
    → (r >>= λ default.
        host_port default (split_path (authority host port ++ slashed suffix)).0
        >>= url_of scheme (split_path (authority host port ++ slashed suffix)).1)
      ≡ (r >>= λ default. port_of default port >>= λ p. url_of scheme (slashed suffix) (host, p))
split_path-host_port (err e) scheme host port suffix lacks fits = refl
split_path-host_port (ok default) scheme host port suffix lacks fits =
    rw
      (
        split_path-append (authority host port) suffix (authority-Lacks host port lacks fits),
        host_port-authority default host port fits,
      )
      (bind-bind (port_of default port) (λ p. (host, p)) (url_of scheme (slashed suffix)))

-- The address that `join_path` gives, for a base of scheme, host, maybe a port, and any number of
-- slashes, is read by `parse`, whether the suffix starts with a slash or not: the scheme must be
-- http or https, else it is refused as such; the port, when there is one, must be a number below
-- 65536, else it is refused as such, and is the scheme's default when there is none; and the host
-- is the base's and the path the suffix, with one slash in front. The scheme may have no colon,
-- the host, which is not empty, and the port no slash, the port no colon, and the host none either
-- where no port is given.
pub parse-join_path :
    (scheme host : Text) (port : Option Text) (n : ℕ) (suffix : Text)
    → Lacks 58 scheme
    → 0 < length host
    → Lacks 47 host
    → PortFits host port
    → parse (join_path (base_url scheme host port n) suffix) ≡ (
        default_port scheme >>= λ default. port_of default port >>= λ p.
        ok (record { scheme = scheme; host = host; port = p; path = slashed suffix }))
unfolding parse
parse-join_path scheme host port n suffix named some_host lacks fits =
    rw
      (
        join_path-base_url scheme host port n suffix some_host lacks fits,
        split_once_str-append scheme (authority host port ++ slashed suffix) named,
        parse,
      )
      (split_path-host_port (default_port scheme) scheme host port suffix lacks fits)
