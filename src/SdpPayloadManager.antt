-- ===== src/SdpPayloadManager.antt =====
-- src/gst-plugins/commons/sdpagent/kmssdppayloadmanager.c: who gets which dynamic payload type.
-- The mutex makes each call one step; an access outside of the array `codecs` is `none`.
mod Codecs
pub mod Registering
mod Counter
pub mod Sharing
pub mod Counting
use text.Mathlib.Text.{◌==◌ as str_eq}
use Prim.Native.String.{String}
use kms_core.Prelude.{
  ℕ, zero, suc, ◌+◌, ◌-◌, ◌%◌, ◌^◌, Bool, true, false, not, Option, none, some, List, ltb, leb,
  if◌then◌else◌, ◌>>=◌, get_elem?, store, replicate,
}
use kms_core.Prelude.Int.{ℤ, pos, negsuc, to_gint}

abbrev pub min_dynamic_payload : ℕ
min_dynamic_payload = 96

abbrev pub max_dynamic_payload : ℕ
max_dynamic_payload = 127

-- `KmsSdpPayloadManagerPrivate`. `counter` is a guint.
pub record Manager : Type 0 where
  pub counter : ℕ
  pub share_pts : Bool
  pub codecs : List (Option String)

-- `kms_sdp_payload_manager_new`, and `_new_same_codec_shares_pt` for `true`.
unfoldable pub new : Bool → Manager
new share = record {
  counter = min_dynamic_payload;
  share_pts = share;
  codecs = replicate (max_dynamic_payload + 1) none;
}

-- `g_strcmp0 (a, b) == 0`.
unfoldable pub same_name : Option String → String → Bool
same_name none name = false
same_name (some other) name = str_eq other name

-- `kms_sdp_payload_manager_get_next_int`: the payload type, or -1 when none is left.
unfoldable pub get_next_int : Manager → Manager × ℤ
get_next_int m = (
  record m { counter = (m.counter + 1) % 2 ^ 32 },
  elim (to_gint m.counter) [
    | pos val ↦ if leb val max_dynamic_payload then pos val else negsuc 0
    | negsuc n ↦ negsuc n
  ],
)

-- The test of the loop below on what `get_next_int` gave: `rest` is the next round.
unfoldable pub take_or : Option (Manager × ℤ) → Manager × ℤ → Option (Manager × ℤ)
take_or rest (m, negsuc n) = some (m, negsuc n)
take_or rest (m, pos i) = do
  codec ← get_elem? m.codecs i
  elim codec [ none ↦ some (m, pos i) | some name ↦ rest ]

-- `kms_sdp_payload_manager_get_dynamic_pt_from_list`: the rounds of its loop that `fuel` allows.
unfoldable pub get_dynamic_pt_from_list : ℕ → Manager → Option (Manager × ℤ)
get_dynamic_pt_from_list zero m = none
get_dynamic_pt_from_list (suc fuel) m =
    let rest = get_dynamic_pt_from_list fuel ((get_next_int m).0) in take_or rest (get_next_int m)

-- The loop of `kms_sdp_payload_get_pt_for_codec`.
unfoldable pub find_codec : ℕ → ℕ → List (Option String) → String → Option (Option ℕ)
find_codec zero i codecs name = some none
find_codec (suc left) i codecs name =
    let rest = find_codec left (suc i) codecs name in
    get_elem? codecs i >>= λ codec. if same_name codec name then some (some i) else rest

abbrev pub dynamic_payloads : ℕ
dynamic_payloads = max_dynamic_payload + 1 - min_dynamic_payload

-- `kms_sdp_payload_get_pt_for_codec`: -1 is `none`.
unfoldable pub get_pt_for_codec : Manager → String → Option (Option ℕ)
get_pt_for_codec m name = find_codec dynamic_payloads min_dynamic_payload m.codecs name

-- The loop that takes the name away from the payload types that have it.
unfoldable pub clear_codec : ℕ → ℕ → List (Option String) → String → Option (List (Option String))
clear_codec zero i codecs name = some codecs
clear_codec (suc left) i codecs name = do
  codec ← get_elem? codecs i
  cleared ← if same_name codec name then store codecs i none else some codecs
  clear_codec left (suc i) cleared name

-- `kms_sdp_payload_manager_register_dynamic_payload_internal`.
unfoldable pub register_internal : Manager → ℤ → String → Option Manager
register_internal m (negsuc n) name = none
register_internal m (pos pt) name = do
  freed ← store m.codecs pt none
  cleared ← clear_codec dynamic_payloads min_dynamic_payload freed name
  registered ← store cleared pt (some name)
  some (record m { codecs = registered })

abbrev pub is_minus_one : ℤ → Bool
is_minus_one (pos n) = false
is_minus_one (negsuc zero) = true
is_minus_one (negsuc (suc n)) = false

-- More rounds than the loop can make: it goes on only for payload types of the array.
abbrev pub enough_rounds : ℕ
enough_rounds = 129

-- The part of `get_dynamic_pt` for a codec that has no payload type: only -1 is not registered.
unfoldable pub register_taken : String → Manager × ℤ → Option (Manager × ℤ)
register_taken name (taken, pt) =
    if is_minus_one pt
    then some (taken, pt)
    else do registered ← register_internal taken pt name; some (registered, pt)

unfoldable pub allocate : Manager → String → Option (Manager × ℤ)
allocate m name = do taken ← get_dynamic_pt_from_list enough_rounds m; register_taken name taken

-- The payload type that the search found, or a new one.
unfoldable pub known_or_new : Manager → String → Option ℕ → Option (Manager × ℤ)
known_or_new m name (some pt) = some (m, pos pt)
known_or_new m name none = allocate m name

unfoldable pub shared_pt : Manager → String → Option (Manager × ℤ)
shared_pt m name = do known ← get_pt_for_codec m name; known_or_new m name known

-- `kms_sdp_payload_manager_get_dynamic_pt`.
unfoldable pub get_dynamic_pt : Manager → Option String → Option (Manager × ℤ)
get_dynamic_pt m codec_name =
    if not m.share_pts
    then some (get_next_int m)
    else elim codec_name [ none ↦ some (m, negsuc 0) | some name ↦ shared_pt m name ]

-- `kms_sdp_payload_manager_register_dynamic_payload`.
unfoldable pub register_dynamic_payload : Manager → ℤ → Option String → Option (Manager × Bool)
register_dynamic_payload m pt codec_name =
    if not m.share_pts then some (m, true) else elim codec_name [
      | none ↦ some (m, false)
      | some name ↦ do registered ← register_internal m pt name; some (registered, true)
    ]
