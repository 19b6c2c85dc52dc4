-- ===== src/Rtmp/Url/Parsed.antt =====
-- Which URLs ParseRtmpUrl of RtmpServer/Rtmp.h reads.
use cloud_assitant.Prelude.{
  ℕ, suc, ◌-◌, ◌%◌, ◌^◌, ◌<◌, ◌≤◌, ◌≡◌, refl, ap, ◌∙◌, List, [], ◌∷◌, ◌++◌, none, some, Bool, true,
  false, not, leb, ◌==◌, if◌then◌else◌, length, text, strstr, ◌>>=◌, All, arith, length-append,
}
use cloud_assitant.Rtmp.Url.{
  span, is_space, is_digit, is_not, stored, scan_until, scan_string, scan_literal, scan_port,
  after_host, after_port, after_path, decimal, to_ushort, sign, signed, number, scan_ushort,
  scan_with_port, scan_pair, Url, set_fields, parse_rtmp_url,
}

span-All : (p : ℕ → Bool) (xs : List ℕ) → All (λ x. p x ≡ true) xs → span p xs ≡ (xs, [])
unfolding span
span-All p [] a = refl
span-All p (x ∷ xs) (a, as') = rw (a, span-All p xs as') refl

span-stop :
    (p : ℕ → Bool) (xs ys : List ℕ) (y : ℕ)
    → All (λ x. p x ≡ true) xs
    → p y ≡ false
    → span p (xs ++ (y ∷ ys)) ≡ (xs, y ∷ ys)
unfolding span
span-stop p [] ys y a e = rw e refl
span-stop p (x ∷ xs) ys y (a, as') e = rw (a, span-stop p xs ys y as' e) refl

stored-some :
    (size x : ℕ) (xs rest : List ℕ)
    → length (x ∷ xs) < size
    → stored size (x ∷ xs, rest) ≡ some (some (x ∷ xs, rest))
unfolding stored
stored-some size x xs rest h = rw (small (suc (length xs)) h) refl
  where
    small : (n : ℕ) → n < size → leb size n ≡ false
    small n h = ground arith

stored-none :
    (size : ℕ) (xs rest : List ℕ) → 0 < size → size ≤ length xs → stored size (xs, rest) ≡ none
unfolding stored
stored-none size [] rest z h = absurd (omega arith)
stored-none size (x ∷ xs) rest z h = rw (large (suc (length xs)) h) refl
  where
    large : (n : ℕ) → size ≤ n → leb size n ≡ true
    large n h = ground arith

-- A URL without a colon after "rtmp://" that goes on for 100 bytes or more overflows the array for the
-- address, whatever its parts are.
pub parse_rtmp_url-overflow :
    (url : List ℕ) (u : Url)
    → All (λ x. is_not 58 x ≡ true) url
    → 100 ≤ length url
    → parse_rtmp_url (text "rtmp://" ++ url) u ≡ none
unfolding parse_rtmp_url scan_with_port scan_until strstr
parse_rtmp_url-overflow url u a h =
    rw (span-All (is_not 58) url a, stored-none 100 url [] (omega arith) h) refl

unfoldable pub no_space : ℕ → Bool
unfolding is_space
no_space c = not (is_space c)

scan_until-found :
    (c size x : ℕ) (xs ys : List ℕ)
    → All (λ x. is_not c x ≡ true) (x ∷ xs)
    → length (x ∷ xs) < size
    → scan_until c size ((x ∷ xs) ++ (c ∷ ys)) ≡ some (some (x ∷ xs, c ∷ ys))
unfolding scan_until
scan_until-found c size x xs ys a h =
    rw (span-stop (is_not c) (x ∷ xs) ys c a (itself c)) (stored-some size x xs (c ∷ ys) h)
  where
    itself : (c : ℕ) → is_not c c ≡ false
    itself c = ground arith

span-none : (p : ℕ → Bool) (x : ℕ) (xs : List ℕ) → p x ≡ false → span p (x ∷ xs) ≡ ([], x ∷ xs)
unfolding span
span-none p x xs e = rw e refl

not-true : (b : Bool) → not b ≡ true → b ≡ false
not-true true e = cc
not-true false e = refl

scan_string-All :
    (size x : ℕ) (xs : List ℕ)
    → All (λ x. no_space x ≡ true) (x ∷ xs)
    → length (x ∷ xs) < size
    → scan_string size (x ∷ xs) ≡ some (some (x ∷ xs, []))
unfolding scan_string no_space
scan_string-All size x xs a h =
    ap (λ q. stored size (span no_space q.1)) (span-none is_space x xs (not-true (is_space x) a.0))
    ∙ (ap (stored size) (span-All no_space (x ∷ xs) a) ∙ stored-some size x xs [] h)

scan_ushort-digits :
    (d : ℕ) (ds ys : List ℕ) (y : ℕ)
    → All (λ x. is_digit x ≡ true) (d ∷ ds)
    → is_digit y ≡ false
    → decimal 0 (d ∷ ds) < 2 ^ 16
    → scan_ushort ((d ∷ ds) ++ (y ∷ ys)) ≡ some (decimal 0 (d ∷ ds), y ∷ ys)
unfolding scan_ushort signed number sign to_ushort is_space is_digit
scan_ushort-digits d ds ys y a e h =
    ap (λ q. signed (sign q.1)) (span-none is_space d (ds ++ (y ∷ ys)) (digit_space d a.0))
    ∙ (ap signed (unsigned d a.0)
        ∙ (ap (number false) (span-stop is_digit (d ∷ ds) ys y a e)
            ∙ ap (λ n. some (n, y ∷ ys)) (small (decimal 0 (d ∷ ds)) h)))
  where
    digit_space : (d : ℕ) → is_digit d ≡ true → is_space d ≡ false
    digit_space d a = ground arith

    unsigned :
        (d : ℕ) → is_digit d ≡ true → sign (d ∷ (ds ++ (y ∷ ys))) ≡ (false, d ∷ (ds ++ (y ∷ ys)))
    unsigned d a = rw (no_minus d a, no_plus d a) refl
      where
        no_minus : (d : ℕ) → is_digit d ≡ true → (d == 45) ≡ false
        no_minus d a = ground arith

        no_plus : (d : ℕ) → is_digit d ≡ true → (d == 43) ≡ false
        no_plus d a = ground arith

    small : (v : ℕ) → v < 2 ^ 16 → (if leb (2 ^ 64) v then 2 ^ 64 - 1 else v) % 2 ^ 16 ≡ v
    small v h = ground arith

-- A URL with its four parts.
abbrev pub url_of : List ℕ → List ℕ → List ℕ → List ℕ → List ℕ
url_of host port app name = text "rtmp://" ++ (host ++ (58 ∷ (port ++ (47 ∷ (app ++ (47 ∷ name))))))

-- A part of a URL: not empty, without a stop, and shorter than its array.
pub data IsPart (stop : ℕ → Bool) (size : ℕ) : List ℕ → Type 0 where
  part :
      (x : ℕ) (xs : List ℕ)
      → All (λ x. stop x ≡ true) (x ∷ xs)
      → length (x ∷ xs) < size
      → IsPart stop size (x ∷ xs)

scan_port-digits :
    (d : ℕ) (ds path : List ℕ)
    → All (λ x. is_digit x ≡ true) (d ∷ ds)
    → decimal 0 (d ∷ ds) < 2 ^ 16
    → scan_port (58 ∷ ((d ∷ ds) ++ (47 ∷ path))) ≡ some (decimal 0 (d ∷ ds), path)
unfolding scan_port scan_literal is_digit
scan_port-digits d ds path a h = rw (scan_ushort-digits d ds path 47 a refl h) refl

scan_with_port-parts :
    (host path : List ℕ) (d : ℕ) (ds : List ℕ)
    → IsPart (is_not 58) 100 host
    → All (λ x. is_digit x ≡ true) (d ∷ ds)
    → decimal 0 (d ∷ ds) < 2 ^ 16
    → IsPart no_space 500 path
    → scan_with_port (host ++ (58 ∷ ((d ∷ ds) ++ (47 ∷ path))))
      ≡ some (some (host, decimal 0 (d ∷ ds), path))
unfolding scan_with_port after_host after_port after_path
scan_with_port-parts _ _ d ds (part h hs a l) b v (part p ps c m) =
    ap (λ o. o >>= λ host. after_host host)
      (scan_until-found 58 100 h hs ((d ∷ ds) ++ (47 ∷ (p ∷ ps))) a l)
    ∙ (ap (after_port (h ∷ hs)) (scan_port-digits d ds (p ∷ ps) b v)
        ∙ ap (λ o. o >>= λ path. after_path (h ∷ hs) (decimal 0 (d ∷ ds)) path)
            (scan_string-All 500 p ps c m))

scan_pair-parts :
    (size size' : ℕ) (app name : List ℕ)
    → IsPart (is_not 47) size app
    → IsPart no_space size' name
    → scan_pair size size' (app ++ (47 ∷ name)) ≡ some (some (app, name))
unfolding scan_pair scan_literal
scan_pair-parts size size' _ _ (part a as' b l) (part n ns c m) =
    rw (scan_until-found 47 size a as' (n ∷ ns) b l) (rw (scan_string-All size' n ns c m) refl)

path-IsPart :
    (app name : List ℕ)
    → IsPart (is_not 47) 100 app
    → All (λ x. no_space x ≡ true) app
    → IsPart no_space 400 name
    → IsPart no_space 500 (app ++ (47 ∷ name))
unfolding no_space is_space
path-IsPart _ _ (part a as' b l) s (part n ns c m) =
    part a (as' ++ (47 ∷ (n ∷ ns))) (s.0, all as' s.1)
      (omega (arith, length-append as' (47 ∷ (n ∷ ns)), l, m))
  where
    all :
        (xs : List ℕ)
        → All (λ x. no_space x ≡ true) xs
        → All (λ x. no_space x ≡ true) (xs ++ (47 ∷ (n ∷ ns)))
    all [] s = (refl, c)
    all (x ∷ xs) (s, t) = (s, all xs t)

-- A URL "rtmp://host:port/app/name" is read into its parts, on an object that has read none before,
-- when the host has no colon, the port has only digits and is less than 2 ^ 16, the app has no slash,
-- app and name have no white space, none is empty, and host, app and name are shorter than 100, 100
-- and 400 bytes.
pub parse_rtmp_url-parts :
    (host app name : List ℕ) (d : ℕ) (ds : List ℕ) (u : Url)
    → IsPart (is_not 58) 100 host
    → All (λ x. is_digit x ≡ true) (d ∷ ds)
    → decimal 0 (d ∷ ds) < 2 ^ 16
    → IsPart (is_not 47) 100 app
    → All (λ x. no_space x ≡ true) app
    → IsPart no_space 400 name
    → u.stream_path ≡ []
    → parse_rtmp_url (url_of host (d ∷ ds) app name) u
      ≡ some (
        true,
        record {
          port = decimal 0 (d ∷ ds);
          ip = host;
          app = app;
          stream_name = name;
          stream_path = 47 ∷ (app ++ (47 ∷ name));
        },
      )
unfolding parse_rtmp_url strstr set_fields scan_literal
parse_rtmp_url-parts host app name d ds u h a v p s n e =
    rw (scan_with_port-parts host (app ++ (47 ∷ name)) d ds h a v (path-IsPart app name p s n))
      (rw e (rw (scan_pair-parts 100 400 app name p n) refl))
