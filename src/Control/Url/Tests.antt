-- ===== src/Control/Url/Tests.antt =====
-- The theorem on addresses at a concrete address.
use tailscale_vita.Prelude.{◌≡◌, refl, some, ok, arith}
use mathlib.Core.Option
use tailscale_vita.Prelude.Bytes.{codes}
use tailscale_vita.Control.Parse.{from_str_radix, digits, to_digit}
use tailscale_vita.Control.Url.Splitter.{parse, join_path}
use tailscale_vita.Control.Url.Joined.{base_url, parse-join_path}

parse-join_path_example :
    parse (join_path (base_url (codes "http") (codes "vita") (some (codes "8080")) 2) (codes "key"))
    ≡ ok (record { scheme = codes "http"; host = codes "vita"; port = 8080; path = codes "/key" })
unfolding from_str_radix digits to_digit Option.bind
parse-join_path_example =
    parse-join_path (codes "http") (codes "vita") (some (codes "8080")) 2 (codes "key")
      (refl, (refl, (refl, (refl, tt)))) (omega arith) (refl, (refl, (refl, (refl, tt))))
      ((refl, (refl, (refl, (refl, tt)))), (refl, (refl, (refl, (refl, tt)))))
