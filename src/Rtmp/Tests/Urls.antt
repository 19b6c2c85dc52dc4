-- ===== src/Rtmp/Tests/Urls.antt =====
-- Runs of the model of ParseRtmpUrl of RtmpServer/Rtmp.h.
use cloud_assitant.Prelude.{
  ℕ, zero, suc, ◌≡◌, refl, [], ◌∷◌, ◌++◌, none, some, true, false, All, replicate, text, arith,
}
use cloud_assitant.Rtmp.Url.{Url, parse_rtmp_url, is_not, is_digit, decimal}
use cloud_assitant.Rtmp.Url.Parsed.{part, no_space, parse_rtmp_url-parts, parse_rtmp_url-overflow}

abbrev fresh : Url
fresh = record { port = 1935; ip = []; app = []; stream_name = []; stream_path = [] }

-- Without a port.
short_url :
    parse_rtmp_url (text "rtmp://h/live/cam") fresh
    ≡ some (
      true,
      record {
        port = 1935;
        ip = text "h";
        app = text "live";
        stream_name = text "cam";
        stream_path = text "/live/cam";
      },
    )
unfolding parse_rtmp_url
short_url = refl

-- Without a name.
no_name :
    parse_rtmp_url (text "rtmp://h:80/live") fresh
    ≡ some (false, record fresh { port = 80; ip = text "h"; stream_path = text "/live" })
unfolding parse_rtmp_url
no_name = refl

parse_rtmp_url-parts_example :
    parse_rtmp_url (text "rtmp://h:80/live/cam") fresh
    ≡ some (
      true,
      record {
        port = 80;
        ip = text "h";
        app = text "live";
        stream_name = text "cam";
        stream_path = text "/live/cam";
      },
    )
unfolding is_digit decimal no_space
parse_rtmp_url-parts_example =
    parse_rtmp_url-parts (text "h") (text "live") (text "cam") b'8' (b'0' ∷ []) fresh
      (part b'h' [] (refl, tt) (omega arith)) (refl, (refl, tt)) (omega arith)
      (part b'l' (text "ive") (refl, (refl, (refl, (refl, tt)))) (omega arith))
      (refl, (refl, (refl, (refl, tt))))
      (part b'c' (text "am") (refl, (refl, (refl, tt))) (omega arith)) refl

letters : (n : ℕ) → All (λ x. is_not 58 x ≡ true) (replicate n b'a')
letters zero = tt
letters (suc n) = (refl, letters n)

parse_rtmp_url-overflow_example : parse_rtmp_url (text "rtmp://" ++ replicate 100 b'a') fresh ≡ none
parse_rtmp_url-overflow_example =
    parse_rtmp_url-overflow (replicate 100 b'a') fresh (letters 100) (omega arith)
