-- ===== src/SdpUtils/Attributes.antt =====
-- sdp_utils.c: the answer to one attribute of a media.
use text.Mathlib.Text.{◌==◌ as str_eq}
use text.Mathlib.TextEquality.{eq_iff}
use Prim.Native.String.{String}
use kms_core.Prelude.{
  ℕ, ◌==◌, ◌≡◌, refl, sym, inl, inr, Bool, true, false, not, Option, none, some, arith, Bool-cases,
  Option-cases, subst,
}
use kms_core.SdpUtils.{
  Direction, sendonly, recvonly, sendrecv, inactive, word, Attribute, direction_of,
  answer_direction, answer_setup, answer_comedia, media_is_active, intersect_attribute,
}

-- RFC 3264, 6.1: what one side sends the other receives.
abbrev pub mirror : Direction → Direction
mirror sendonly = recvonly
mirror recvonly = sendonly
mirror sendrecv = sendrecv
mirror inactive = inactive

abbrev pub index : Direction → ℕ
index sendonly = 0
index recvonly = 1
index sendrecv = 2
index inactive = 3

-- A comparison that tells the words of the table apart from one another and from three other keys.
pub record Caseless (alike : String → String → Bool) : Type 0 where
  pub self : (s : String) → alike s s ≡ true
  pub apart : (d e : Direction) → (index d == index e) ≡ false → alike (word d) (word e) ≡ false
  pub setup : (d : Direction) → alike "setup" (word d) ≡ false
  pub comedia : (d : Direction) → alike "direction" (word d) ≡ false
  pub connection : (d : Direction) → alike "connection" (word d) ≡ false

-- Which side is active once a setup value has been answered: the offerer when it offered "active", and
-- otherwise the other one.
abbrev pub is_active : String → Bool → Bool
is_active value true = str_eq value "active"
is_active value false = not (str_eq value "active")

abbrev pub mirrored : Option Direction → Option Direction
mirrored none = none
mirrored (some d) = some (mirror d)

module _ (alike : String → String → Bool) (c : Caseless alike) where
  direction_of-word : (d : Direction) → direction_of alike (word d) ≡ some d
  unfolding direction_of
  direction_of-word sendonly = rw (c.self "sendonly") refl
  direction_of-word recvonly = rw (c.apart recvonly sendonly refl, c.self "recvonly") refl
  direction_of-word sendrecv =
      rw (c.apart sendrecv sendonly refl, c.apart sendrecv recvonly refl, c.self "sendrecv") refl
  direction_of-word inactive =
      rw
        (
          c.apart inactive sendonly refl,
          c.apart inactive recvonly refl,
          c.apart inactive sendrecv refl,
          c.self "inactive",
        )
        refl

  word_other : (d : Direction) → str_eq (word d) "setup" ≡ false
  word_other sendonly = refl
  word_other recvonly = refl
  word_other sendrecv = refl
  word_other inactive = refl

  no_direction :
      (key : String)
      → ((d : Direction) → alike key (word d) ≡ false)
      → direction_of alike key ≡ none
  unfolding direction_of
  no_direction key h = rw (h sendonly, h recvonly, h sendrecv, h inactive) refl

  answer_direction-mirrors :
      (key : String) (d : Direction)
      → direction_of alike key ≡ some d
      → answer_direction alike key ≡ some (record { key = word (mirror d); value = "" })
  unfolding direction_of answer_direction
  answer_direction-mirrors key sendonly h = ground arith
  answer_direction-mirrors key recvonly h = ground arith
  answer_direction-mirrors key sendrecv h = ground arith
  answer_direction-mirrors key inactive h = ground arith

  roles :
      (value : String) (offerer : Bool)
      → media_is_active (some (answer_setup value)) offerer ≡ is_active value offerer
  unfolding media_is_active answer_setup
  roles value true = elim (Bool-cases (str_eq value "active")) [
    | inl active ↦ rw active refl
    | inr other ↦ elim (Bool-cases (str_eq value "passive")) [
      | inl passive ↦ rw (other, passive) refl
      | inr no_passive ↦ elim (Bool-cases (str_eq value "actpass")) [
        | inl actpass ↦ rw (other, no_passive, actpass) refl
        | inr no_actpass ↦ rw (other, no_passive, no_actpass) refl
      ]
    ]
  ]
  roles value false = elim (Bool-cases (str_eq value "active")) [
    | inl active ↦ rw active refl
    | inr other ↦ elim (Bool-cases (str_eq value "passive")) [
      | inl passive ↦ rw (other, passive) refl
      | inr no_passive ↦ elim (Bool-cases (str_eq value "actpass")) [
        | inl actpass ↦ rw (other, no_passive, actpass) refl
        | inr no_actpass ↦ rw (other, no_passive, no_actpass) refl
      ]
    ]
  ]

  -- An offered attribute and its answer: a setup value makes one side active, and what is neither a
  -- setup, a comedia direction, a connection nor a direction is copied.
  pub record Fits (a answer : Attribute) : Type 0 where
    pub setup :
        str_eq a.key "setup" ≡ true
        → (answer.key ≡ a.key)
          × ((offerer : Bool)
              → media_is_active (some answer.value) offerer ≡ is_active a.value offerer)
    pub other : str_eq a.key "setup" ≡ false → str_eq answer.key "setup" ≡ false
    pub copied :
        str_eq a.key "setup" ≡ false
        → str_eq a.key "direction" ≡ false
        → str_eq a.key "connection" ≡ false
        → direction_of alike a.key ≡ none
        → answer ≡ a

  -- What the callback gets for an attribute.
  pub record Answers (a : Attribute) : Type 0 where
    pub answer : Attribute
    pub ran : intersect_attribute alike a ≡ some answer
    pub fits : Fits a answer
    pub mirrors : direction_of alike answer.key ≡ mirrored (direction_of alike a.key)

  exact :
      (key name : String)
      → str_eq key name ≡ true
      → ((d : Direction) → alike name (word d) ≡ false)
      → direction_of alike key ≡ none
  exact key name h other = no_direction key (λ d.
      subst (λ (k : String). alike k (word d) ≡ false) (sym ((eq_iff key name).0 h)) (other d))

  pub intersect_attribute-Answers : (a : Attribute) → Answers a
  unfolding intersect_attribute
  intersect_attribute-Answers a = elim (Bool-cases (str_eq a.key "setup")) [
    | inl setup ↦
        let e = exact a.key "setup" setup c.setup in
        record {
          answer = record a { value = answer_setup a.value };
          ran = rw (setup, intersect_attribute) refl;
          fits = record {
            setup = λ h. (refl, roles a.value);
            other = λ h. h;
            copied = λ h h' h'' n. absurd (ground arith);
          };
          mirrors = rw e refl;
        }
    | inr no_setup ↦ elim (Bool-cases (str_eq a.key "direction")) [
      | inl comedia ↦
          let e = exact a.key "direction" comedia c.comedia in
          record {
            answer = record a { value = answer_comedia a.value };
            ran = rw (no_setup, comedia, intersect_attribute) refl;
            fits = record {
              setup = λ h. absurd (ground arith);
              other = λ h. h;
              copied = λ h h' h'' n. absurd (ground arith);
            };
            mirrors = rw e refl;
          }
      | inr no_comedia ↦ elim (Bool-cases (str_eq a.key "connection")) [
        | inl connection ↦
            let e = exact a.key "connection" connection c.connection in
            record {
              answer = record { key = "connection"; value = "new" };
              ran = rw (no_setup, no_comedia, connection, intersect_attribute) refl;
              fits = record {
                setup = λ h. absurd (ground arith);
                other = λ h. refl;
                copied = λ h h' h'' n. absurd (ground arith);
              };
              mirrors = rw (no_direction "connection" c.connection, e) refl;
            }
        | inr no_connection ↦ elim (Option-cases (direction_of alike a.key)) [
          | inl none_there ↦ record {
            answer = a;
            ran = rw (no_setup, no_comedia, no_connection, none_there, intersect_attribute) refl;
            fits = record {
              setup = λ h. absurd (ground arith);
              other = λ h. h;
              copied = λ h h' h'' n. refl;
            };
            mirrors = rw none_there refl;
          }
          | inr (d, there) ↦ record {
            answer = record { key = word (mirror d); value = "" };
            ran =
                rw (no_setup, no_comedia, no_connection, there, intersect_attribute)
                  (answer_direction-mirrors a.key d there);
            fits = record {
              setup = λ h. absurd (ground arith);
              other = λ h. word_other (mirror d);
              copied = λ h h' h'' n. absurd (ground (arith, n, there));
            };
            mirrors = rw there (direction_of-word (mirror d));
          }
        ]
      ]
    ]
  ]
