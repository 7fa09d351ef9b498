-- ===== src/Net/NetUrl/Tests.antt =====
-- Runs of the URL, and its theorems at small inputs.
use cxxprogram.Prelude.{[], refl, some, true, ◌^◌, ◌∷◌, ◌≡◌}
use cxxprogram.Net.NetUrl.{
  NetUrl, Params, parse, encode, set, read_host, stoi, read_params, read_bytes, read_byte,
  put_param, encode_params, get_cast, cast_signed, dump, dump_params,
}
use cxxprogram.Prelude.Int.{pos, negsuc}
use cxxprogram.Prelude.Decimal.{decimal, to_string}
use cxxprogram.Net.NetUrl.Casts.{get_cast-to_string}

-- "h" with port 80 and the parameters "k=v" and "n=1".
abbrev pairs : Params
pairs = ((107 ∷ []), (118 ∷ [])) ∷ ((110 ∷ []), (49 ∷ [])) ∷ []

abbrev url : NetUrl
url = record { protocol = 116 ∷ []; host = 104 ∷ []; port = 80; params = pairs }

parse_runs : parse (encode url) ≡ some (true, url)
unfolding parse encode read_host stoi decimal read_params read_bytes read_byte put_param
    encode_params
parse_runs = refl

-- The two parameters the other way round.
abbrev swapped : Params
swapped = ((110 ∷ []), (49 ∷ [])) ∷ ((107 ∷ []), (118 ∷ [])) ∷ []

get_cast_runs :
    get_cast (cast_signed (2 ^ 31)) (set url (107 ∷ []) (to_string (negsuc 4))) (107 ∷ []) (pos 7)
    ≡ negsuc 4
get_cast_runs = get_cast-to_string (2 ^ 31) url (107 ∷ []) (negsuc 4) (pos 7) refl

dump_runs :
    dump (record url { params = [] })
    ≡ 112 ∷ 114 ∷ 111 ∷ 116 ∷ 111 ∷ 99 ∷ 111 ∷ 108 ∷ 32 ∷ 58 ∷ 32 ∷ 116 ∷ 10 ∷ 104 ∷ 111 ∷ 115 ∷ 116
      ∷ 32 ∷ 58 ∷ 32 ∷ 104 ∷ 10 ∷ 112 ∷ 111 ∷ 114 ∷ 116 ∷ 32 ∷ 58 ∷ 32 ∷ 56 ∷ 48 ∷ 10 ∷ []
unfolding dump dump_params decimal
dump_runs = refl
