-- ===== src/Plugins/Oauth2/Consumers/Identified.antt =====
-- src/plugins/oauth2_auth/mod.rs: which consumer a token identifies.
use ferrumgw.Common.{
  ◌≡◌, ◌↔◌, refl, ◌⊎◌, ==_iff, string_eq, inl, inr, String, Bool, true, false, List, [], ◌∷◌,
  Option, none, some, find, Bool-cases, Option-cases, arith,
}
use ferrumgw.Config.{Consumer}
use ferrumgw.Common.HashMap.{get_key}
use ferrumgw.Plugins.Oauth2.{Oauth2AuthConfig, Value, Claims, Services, and_then}
use ferrumgw.Plugins.Oauth2.Consumers.{
  or_else, search_by, has_any, claimed_id, is_text, provider_id, has_id, has_custom_id,
  has_username, has_provider_id, find_consumer_from_claims,
}

abbrev pub IsAmong : Consumer → List Consumer → Type 0
IsAmong c [] = ⊥
IsAmong c (x ∷ xs) = (x ≡ c) ⊎ IsAmong c xs

find-holds :
    (p : Consumer → Bool) (xs : List Consumer) (c : Consumer)
    → find p xs ≡ some c
    → (p c ≡ true) × IsAmong c xs
find-holds p [] c h = absurd (ground arith)
find-holds p (x ∷ xs) c h = elim (Bool-cases (p x)) [
  | inl met ↦ let same : x ≡ c = ground arith in (rw (← same) met, inl same)
  | inr unmet ↦ let (holds, i) = find-holds p xs c (ground arith) in (holds, inr i)
]

find-none :
    (p : Consumer → Bool) (xs : List Consumer)
    → find p xs ≡ none
    → (d : Consumer) → IsAmong d xs
    → p d ≡ false
find-none p [] h d i = absurd i
find-none p (x ∷ xs) h d (inl same) = ground arith
find-none p (x ∷ xs) h d (inr i) = find-none p xs (ground arith) d i

-- Nobody in the list is `P`; some consumer of the list, which is `P`, is found.
abbrev pub Nobody : (Consumer → Type 0) → List Consumer → Type 0
Nobody P xs = (d : Consumer) → IsAmong d xs → ¬ P d

abbrev pub Somebody : (Consumer → Type 0) → List Consumer → Option Consumer → Type 0
Somebody P xs o = (c : Consumer) × (o ≡ some c) × IsAmong c xs × P c

-- One way to find a consumer, before the others.
tried :
    (P : Consumer → Type 0) (Q : Option Consumer → Type 0) (test : Consumer → Bool)
    (xs : List Consumer) (rest : Option Consumer)
    → ((c : Consumer) → (test c ≡ true) ↔ P c)
    → Q rest
    → Somebody P xs (or_else (find test xs) rest) ⊎ (Nobody P xs × Q (or_else (find test xs) rest))
tried P Q test xs rest iff q = elim (Option-cases (find test xs)) [
  | inr (c, found) ↦
      let (met, i) = find-holds test xs c found in rw found (inl (c, refl, i, (iff c).0 met))
  | inl missed ↦
      rw missed (inr ((λ d i has. ground (arith, find-none test xs missed d i, (iff d).1 has)), q))
]

and_then-some :
    {A B : Type 0} (o : Option A) (f : A → Option B) (b : B)
    → and_then o f ≡ some b
    → (a : A) × (o ≡ some a) × (f a ≡ some b)
and_then-some none f b h = absurd (ground arith)
and_then-some (some a) f b h = (a, refl, h)

module _ {DecodingKey Error : Type 0} (S : Services DecodingKey Error) (config : Oauth2AuthConfig)
    (identifier : String) where
  abbrev pub HasId : Consumer → Type 0
  HasId c = c.id ≡ identifier

  abbrev pub HasCustomId : Consumer → Type 0
  HasCustomId c = c.custom_id ≡ some identifier

  abbrev pub HasUsername : Consumer → Type 0
  HasUsername c = c.username ≡ identifier

  -- The credential `oauth_provider_ids` is an object whose field of the configured provider is the text.
  abbrev pub HasProviderId : Consumer → Type 0
  HasProviderId c =
      (ids : Value) × (get_key c.credentials "oauth_provider_ids" ≡ some ids)
      × (members : List (String × Value)) × (S.as_object ids ≡ some members)
      × (v : Value) × (S.get ids config.provider_name ≡ some v)
      × (S.as_str v ≡ some identifier)

  is_text_iff : (o : Option String) → (is_text S config identifier o ≡ true) ↔ (o ≡ some identifier)
  is_text_iff none = ground arith
  is_text_iff (some t) = ground (arith, ==_iff t identifier)

  has_provider_id_iff :
      (c : Consumer) → (has_provider_id S config identifier c ≡ true) ↔ HasProviderId c
  has_provider_id_iff c = (
    λ h.
        let (ids, held, h1) =
          and_then-some (get_key c.credentials "oauth_provider_ids") (provider_id S config)
            identifier ((is_text_iff _).0 h) in
        let (v, got, text) =
          and_then-some (and_then (S.as_object ids) (λ _. S.get ids config.provider_name)) S.as_str
            identifier h1 in
        let (members, object, field) =
          and_then-some (S.as_object ids) (λ _. S.get ids config.provider_name) v got in
        (ids, held, members, object, v, field, text),
    λ (ids, held, members, object, v, field, text).
        (is_text_iff _).1 (rw (held, object, field) text),
  )

  -- By id, or where nobody has it by custom id, or else by username, or else by provider id.
  abbrev pub ByProviderId : List Consumer → Option Consumer → Type 0
  ByProviderId xs o = Somebody HasProviderId xs o ⊎ (Nobody HasProviderId xs × (o ≡ none))

  abbrev pub ByUsername : List Consumer → Option Consumer → Type 0
  ByUsername xs o = Somebody HasUsername xs o ⊎ (Nobody HasUsername xs × ByProviderId xs o)

  abbrev pub ByCustomId : List Consumer → Option Consumer → Type 0
  ByCustomId xs o = Somebody HasCustomId xs o ⊎ (Nobody HasCustomId xs × ByUsername xs o)

  abbrev pub IsIdentified : List Consumer → Option Consumer → Type 0
  IsIdentified xs o = Somebody HasId xs o ⊎ (Nobody HasId xs × ByCustomId xs o)

  searched-IsIdentified :
      (xs : List Consumer) → IsIdentified xs (search_by (has_any S config identifier) xs)
  searched-IsIdentified xs =
      let by_provider = or_else (find (has_provider_id S config identifier) xs) none in
      let by_username = or_else (find (has_username S config identifier) xs) by_provider in
      let by_custom_id = or_else (find (has_custom_id S config identifier) xs) by_username in
      tried HasId (ByCustomId xs) (has_id S config identifier) xs by_custom_id
        (λ c. ==_iff c.id identifier)
        (tried HasCustomId (ByUsername xs) (has_custom_id S config identifier) xs by_username
          (λ c. is_text_iff c.custom_id)
          (tried HasUsername (ByProviderId xs) (has_username S config identifier) xs by_provider
            (λ c. ==_iff c.username identifier)
            (tried HasProviderId (λ o. o ≡ none) (has_provider_id S config identifier) xs none
              has_provider_id_iff refl)))

  -- Claims with an identifier, and the consumers of the active configuration: a consumer whose id it is is
  -- found; where nobody has that id, one whose custom id it is; where nobody has that either, one whose
  -- username it is; and then one that has it as text under the configured provider in the object of its
  -- credential `oauth_provider_ids`. Where nobody has it in any of these ways, no consumer is found.
  pub find_consumer_from_claims_best :
      (consumers : List Consumer) (claims : Claims)
      → claimed_id S config claims ≡ some identifier
      → IsIdentified consumers (find_consumer_from_claims S config (some consumers) claims)
  unfolding find_consumer_from_claims
  find_consumer_from_claims_best consumers claims h = rw h (searched-IsIdentified consumers)
