-- ===== src/Facts/Samples.antt =====
-- Small facts for the tests (src/analysis_facts.hpp).
use viy.Base.{ℕ, ◌≡◌, refl, true, none, some, List, [], ◌∷◌, arith}
use viy.Facts.Enums.{static_proof}
use viy.Facts.Schema.{Evidence, FactPayload, AnalysisFact, DispatchCase, dispatch_map}
use viy.Facts.Bytes.{FactCodecLimits}
use viy.Facts.BytesRead.{IfSome}
use viy.Facts.Validate.{normal_payload, validate_payload}
use viy.Facts.Encode.{encode_normalized_payload}
use viy.Facts.Codec.{normalize_payload, encode_payload}
use viy.Facts.Fits.{PayloadFits, Counted}

abbrev pub limits : FactCodecLimits
limits = record { max_fact_bytes = 4194304; max_string_bytes = 1048576; max_vector_items = 1048576 }

abbrev pub one : DispatchCase
one = record { selector = some 1; target = 0x1000 }

abbrev pub two : DispatchCase
two = record { selector = some 2; target = 0x2000 }

abbrev pub shuffled : FactPayload
shuffled =
    dispatch_map (record {
      site = 0x900;
      cases = two ∷ one ∷ two ∷ [];
      default_target = none;
      complete = true;
    })

abbrev pub sorted : FactPayload
sorted =
    dispatch_map
      (record { site = 0x900; cases = one ∷ two ∷ []; default_target = none; complete = true })

abbrev pub sorted_bytes : List ℕ
sorted_bytes =
    86 ∷ 73 ∷ 89 ∷ 80 ∷ 0 ∷ 1 ∷ 9 ∷ 0 ∷ 0 ∷ 0 ∷ 0 ∷ 0 ∷ 0 ∷ 9 ∷ 0 ∷ 0 ∷ 0 ∷ 0 ∷ 2 ∷ 1 ∷ 0 ∷ 0 ∷ 0
    ∷ 0 ∷ 0 ∷ 0 ∷ 0 ∷ 1 ∷ 0 ∷ 0 ∷ 0 ∷ 0 ∷ 0 ∷ 0 ∷ 16 ∷ 0 ∷ 1 ∷ 0 ∷ 0 ∷ 0 ∷ 0 ∷ 0 ∷ 0 ∷ 0 ∷ 2 ∷ 0 ∷ 0
    ∷ 0 ∷ 0 ∷ 0 ∷ 0 ∷ 32 ∷ 0 ∷ 0 ∷ 1 ∷ []

abbrev pub evidence : Evidence
evidence = record {
  producer = 114 ∷ 97 ∷ 120 ∷ [];
  method = 114 ∷ 117 ∷ 110 ∷ [];
  proof = static_proof;
  confidence = 9000;
  scope = record {
    run_id = some 7;
    seed = none;
    function_start = some 0x1000;
    function_end = some 0x1100;
    generation = 3;
  };
  support_addresses = 0x1004 ∷ 0x1008 ∷ [];
  detail = [];
}

abbrev pub evidence_bytes : List ℕ
evidence_bytes =
    86 ∷ 73 ∷ 89 ∷ 69 ∷ 0 ∷ 1 ∷ 0 ∷ 0 ∷ 0 ∷ 3 ∷ 114 ∷ 97 ∷ 120 ∷ 0 ∷ 0 ∷ 0 ∷ 3 ∷ 114 ∷ 117 ∷ 110 ∷ 2
    ∷ 35 ∷ 40 ∷ 1 ∷ 0 ∷ 0 ∷ 0 ∷ 0 ∷ 0 ∷ 0 ∷ 0 ∷ 7 ∷ 0 ∷ 1 ∷ 0 ∷ 0 ∷ 0 ∷ 0 ∷ 0 ∷ 0 ∷ 16 ∷ 0 ∷ 1 ∷ 0
    ∷ 0 ∷ 0 ∷ 0 ∷ 0 ∷ 0 ∷ 17 ∷ 0 ∷ 0 ∷ 0 ∷ 0 ∷ 0 ∷ 0 ∷ 0 ∷ 0 ∷ 3 ∷ 0 ∷ 0 ∷ 0 ∷ 2 ∷ 0 ∷ 0 ∷ 0 ∷ 0 ∷ 0
    ∷ 0 ∷ 16 ∷ 4 ∷ 0 ∷ 0 ∷ 0 ∷ 0 ∷ 0 ∷ 0 ∷ 16 ∷ 8 ∷ 0 ∷ 0 ∷ 0 ∷ 0 ∷ []

abbrev pub fact : AnalysisFact
fact = record { payload = sorted; evidence = evidence }

abbrev pub fact_bytes : List ℕ
fact_bytes =
    86 ∷ 73 ∷ 89 ∷ 70 ∷ 0 ∷ 1 ∷ 0 ∷ 0 ∷ 0 ∷ 55 ∷ 86 ∷ 73 ∷ 89 ∷ 80 ∷ 0 ∷ 1 ∷ 9 ∷ 0 ∷ 0 ∷ 0 ∷ 0 ∷ 0
    ∷ 0 ∷ 9 ∷ 0 ∷ 0 ∷ 0 ∷ 0 ∷ 2 ∷ 1 ∷ 0 ∷ 0 ∷ 0 ∷ 0 ∷ 0 ∷ 0 ∷ 0 ∷ 1 ∷ 0 ∷ 0 ∷ 0 ∷ 0 ∷ 0 ∷ 0 ∷ 16 ∷ 0
    ∷ 1 ∷ 0 ∷ 0 ∷ 0 ∷ 0 ∷ 0 ∷ 0 ∷ 0 ∷ 2 ∷ 0 ∷ 0 ∷ 0 ∷ 0 ∷ 0 ∷ 0 ∷ 32 ∷ 0 ∷ 0 ∷ 1 ∷ 0 ∷ 0 ∷ 0 ∷ 83
    ∷ 86 ∷ 73 ∷ 89 ∷ 69 ∷ 0 ∷ 1 ∷ 0 ∷ 0 ∷ 0 ∷ 3 ∷ 114 ∷ 97 ∷ 120 ∷ 0 ∷ 0 ∷ 0 ∷ 3 ∷ 114 ∷ 117 ∷ 110
    ∷ 2 ∷ 35 ∷ 40 ∷ 1 ∷ 0 ∷ 0 ∷ 0 ∷ 0 ∷ 0 ∷ 0 ∷ 0 ∷ 7 ∷ 0 ∷ 1 ∷ 0 ∷ 0 ∷ 0 ∷ 0 ∷ 0 ∷ 0 ∷ 16 ∷ 0 ∷ 1
    ∷ 0 ∷ 0 ∷ 0 ∷ 0 ∷ 0 ∷ 0 ∷ 17 ∷ 0 ∷ 0 ∷ 0 ∷ 0 ∷ 0 ∷ 0 ∷ 0 ∷ 0 ∷ 3 ∷ 0 ∷ 0 ∷ 0 ∷ 2 ∷ 0 ∷ 0 ∷ 0 ∷ 0
    ∷ 0 ∷ 0 ∷ 16 ∷ 4 ∷ 0 ∷ 0 ∷ 0 ∷ 0 ∷ 0 ∷ 0 ∷ 16 ∷ 8 ∷ 0 ∷ 0 ∷ 0 ∷ 0 ∷ []

pub sorted_encoded : encode_payload sorted ≡ some sorted_bytes
unfolding encode_payload normalize_payload validate_payload normal_payload encode_normalized_payload
sorted_encoded = refl

pub sorted_fits : PayloadFits limits (normal_payload shuffled)
unfolding PayloadFits normal_payload Counted IfSome
sorted_fits = (
  omega arith,
  (omega arith, omega arith, ((omega arith, omega arith), ((omega arith, omega arith), tt))),
  tt,
)
