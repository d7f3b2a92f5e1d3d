-- ===== src/SdpUtils/Answering.antt =====
-- sdp_utils.c: the answers to the attributes of a media.
use mathlib.Core.Option.{some-injective}
use text.Mathlib.Text.{◌==◌ as str_eq}
use Prim.Native.String.{String}
use kms_core.Prelude.{
  ◌≡◌, ◌∙◌, refl, sym, ap, inl, inr, Bool, true, false, Option, none, some, List, [], ◌∷◌,
  if◌then◌else◌, arith, Bool-cases, Option-cases, subst,
}
use kms_core.SdpUtils.{
  Direction, Attribute, direction_of, get_direction, media_is_active, intersect_media_attributes,
}
use kms_core.SdpUtils.Attributes.{
  mirror, mirrored, Caseless, is_active, Fits, Answers, intersect_attribute-Answers,
}

-- The value of a media's `setup` attribute, the first if there are several.
abbrev pub setup_value : List Attribute → Option String
setup_value [] = none
setup_value (a ∷ attributes) = if str_eq a.key "setup" then some a.value else setup_value attributes

module _ (alike : String → String → Bool) (c : Caseless alike) where
  -- Each attribute has its answer, in the order of the offer.
  pub data Answered : List Attribute → List Attribute → Type 0 where
    finished : Answered [] []
    attribute :
        {a answer : Attribute} {offer answers : List Attribute}
        → Fits alike c a answer
        → Answered offer answers
        → Answered (a ∷ offer) (answer ∷ answers)

  -- What the answers of a media are to its offer.
  pub record Mirrors (offer answers : List Attribute) : Type 0 where
    pub answered : Answered offer answers
    pub direction : get_direction alike answers ≡ mirror (get_direction alike offer)
    pub role :
        (value : String) (offerer : Bool)
        → setup_value offer ≡ some value
        → media_is_active (setup_value answers) offerer ≡ is_active value offerer

  get_direction_first :
      (a : Attribute) (attributes : List Attribute) (d : Direction)
      → direction_of alike a.key ≡ some d
      → get_direction alike (a ∷ attributes) ≡ d
  unfolding get_direction
  get_direction_first a attributes d h = rw (h, get_direction) refl

  get_direction_later :
      (a : Attribute) (attributes : List Attribute)
      → direction_of alike a.key ≡ none
      → get_direction alike (a ∷ attributes) ≡ get_direction alike attributes
  unfolding get_direction
  get_direction_later a attributes h = rw (h, get_direction) refl

  intersect_cons :
      (a : Attribute) (offer : List Attribute) (x : Answers alike c a)
      → intersect_media_attributes alike (a ∷ offer) ≡ (
        x.answer ∷ (intersect_media_attributes alike offer).0,
        (intersect_media_attributes alike offer).1,
      )
  unfolding intersect_media_attributes
  intersect_cons a offer x = rw (x.ran, intersect_media_attributes) refl

  answered-mirrors :
      (offer : List Attribute)
      → ((intersect_media_attributes alike offer).1 ≡ true)
        × (get_direction alike (intersect_media_attributes alike offer).0
            ≡ mirror (get_direction alike offer))
  unfolding get_direction intersect_media_attributes
  answered-mirrors [] = (refl, refl)
  answered-mirrors (a ∷ offer) =
      let x = intersect_attribute-Answers alike c a in
      let rest = answered-mirrors offer in
      let answers = (intersect_media_attributes alike offer).0 in
      let e = ap (λ (p : List Attribute × Bool). p.0) (intersect_cons a offer x) in
      let e' = ap (λ (p : List Attribute × Bool). p.1) (intersect_cons a offer x) in
      (
        e' ∙ rest.0,
        ap (get_direction alike) e ∙ elim (Option-cases (direction_of alike a.key)) [
          | inl none_there ↦
              get_direction_later x.answer answers (x.mirrors ∙ ap mirrored none_there)
              ∙ rest.1
              ∙ ap mirror (sym (get_direction_later a offer none_there))
          | inr (d, there) ↦
              get_direction_first x.answer answers (mirror d) (x.mirrors ∙ ap mirrored there)
              ∙ ap mirror (sym (get_direction_first a offer d there))
        ],
      )

  answered-Answered :
      (offer : List Attribute) → Answered offer (intersect_media_attributes alike offer).0
  unfolding intersect_media_attributes
  answered-Answered [] = finished
  answered-Answered (a ∷ offer) =
      let x = intersect_attribute-Answers alike c a in
      subst (λ (p : List Attribute × Bool). Answered (a ∷ offer) p.0)
        (sym (intersect_cons a offer x)) (attribute x.fits (answered-Answered offer))

  setup_first :
      (a : Attribute) (attributes : List Attribute)
      → str_eq a.key "setup" ≡ true
      → setup_value (a ∷ attributes) ≡ some a.value
  setup_first a attributes h = rw h refl

  setup_later :
      (a : Attribute) (attributes : List Attribute)
      → str_eq a.key "setup" ≡ false
      → setup_value (a ∷ attributes) ≡ setup_value attributes
  setup_later a attributes h = rw h refl

  answered-role :
      {offer answers : List Attribute} (value : String) (offerer : Bool)
      → Answered offer answers
      → setup_value offer ≡ some value
      → media_is_active (setup_value answers) offerer ≡ is_active value offerer
  answered-role value offerer finished there = absurd (ground arith)
  answered-role value offerer
        (attribute {a = a} {answer = answer} {offer = offer} {answers = answers} fits rest) there =
      elim (Bool-cases (str_eq a.key "setup")) [
        | inl setup ↦
            let here : str_eq answer.key "setup" ≡ true = rw (fits.setup setup).0 setup in
            let e = some-injective a.value value (sym (setup_first a offer setup) ∙ there) in
            ap (λ (v : Option String). media_is_active v offerer) (setup_first answer answers here)
            ∙ (fits.setup setup).1 offerer
            ∙ ap (λ (v : String). is_active v offerer) e
        | inr other ↦
            ap (λ (v : Option String). media_is_active v offerer)
              (setup_later answer answers (fits.other other))
            ∙ answered-role value offerer rest (sym (setup_later a offer other) ∙ there)
      ]

  -- With a comparison that tells the words for directions apart from one another and from the other keys
  -- that the code knows, the attributes of an offered media are answered one by one, in their order, and
  -- those that are no setup, direction or connection are copied. The direction of the answers mirrors
  -- that of the offer, and if the offer has a setup value, the answers' value makes exactly one side
  -- active: the offerer when it offered "active", and otherwise the other side.
  pub intersect_media_attributes-Mirrors :
      (offer : List Attribute)
      → ((intersect_media_attributes alike offer).1 ≡ true)
        × Mirrors offer (intersect_media_attributes alike offer).0
  intersect_media_attributes-Mirrors offer = (
    (answered-mirrors offer).0,
    record {
      answered = answered-Answered offer;
      direction = (answered-mirrors offer).1;
      role = λ value offerer there. answered-role value offerer (answered-Answered offer) there;
    },
  )
