-- ===== src/Client/Messages/Order.antt =====
-- client/client.go: which messages reach which cache, and in what order.
use wstester.Prelude.{
  ◌≡◌, refl, sym, ap, subst, ◌||◌, contains, codes, ◌∙◌, Bool, true, false, Option, none, some,
  List, [], ◌∷◌, ◌++◌, done, arith, if◌then◌else◌, lookup, put, lookup-put, Text, text_eqb,
  text_eqb_iff, text_eq, Option-cases, Bool-cases, if_intro, inl, inr,
}
use mathlib.Core.List.{append-nil, append_assoc}
use wstester.Channels.{fed}
use wstester.Tables.{TableCache, CacheInput, append, message}
use wstester.Client.Messages.{
  Kind, info, subscribe, error, auth, instrument, mbl, trade, unknown, classify, Decoders, Receiver,
  with_table, take_sub, take_auth, to_cache, handle_kind, handle_message, handle_messages,
}

-- The specification of the sorting: the kinds in the order of their precedence, each with the texts of
-- which a message has one.
abbrev pub patterns : List (Kind × List Text)
patterns =
    (info, codes "\"info\"" ∷ [])
    ∷ (subscribe, codes "\"subscribe\"" ∷ [])
    ∷ (error, codes "\"error\"" ∷ [])
    ∷ (auth, codes "\"authKeyExpires\"" ∷ codes "\"api-key\"" ∷ [])
    ∷ (instrument, codes "\"table\":\"instrument\"" ∷ codes "\"table\": \"instrument\"" ∷ [])
    ∷ (mbl, codes "\"table\":\"orderBook" ∷ codes "\"table\": \"orderBook" ∷ [])
    ∷ (trade, codes "\"table\":\"trade\"" ∷ codes "\"table\": \"trade\"" ∷ [])
    ∷ []

abbrev pub has_any : Text → List Text → Bool
has_any text [] = false
has_any text (part ∷ []) = contains text part
has_any text (part ∷ other ∷ parts) = contains text part || has_any text (other ∷ parts)

abbrev pub first_kind : List (Kind × List Text) → Text → Kind
first_kind [] text = unknown
first_kind ((kind, parts) ∷ rest) text = if has_any text parts then kind else first_kind rest text

classify-first : (text : Text) → classify text ≡ first_kind patterns text
unfolding classify
classify-first text = refl

module _ {A : Type 0} where
  -- The table and the response of a message, if it is one of a table.
  abbrev pub table_msg : Decoders A → Text → Kind → Option (Text × A)
  table_msg d text instrument = d.ins_msg text
  table_msg d text mbl = d.mbl_msg text
  table_msg d text trade = d.td_msg text
  table_msg d text _ = none

  abbrev pub for_table : Text → Option (Text × A) → List (CacheInput A)
  for_table name none = []
  for_table name (some (table, rsp)) = if text_eqb name table then message rsp ∷ [] else []

  -- The specification: the responses of one table, in the order of their messages.
  abbrev pub inputs_of : Decoders A → Text → List Text → List (CacheInput A)
  inputs_of d name [] = []
  inputs_of d name (text ∷ texts) =
      for_table name (table_msg d text (first_kind patterns text)) ++ inputs_of d name texts

pub in_two :
    {A : Type 0} (b b1 : Bool) (p p1 xs ys : List (CacheInput A))
    → b1 ≡ b
    → p1 ≡ (if b then p ++ xs else [])
    → (if b1 then p1 ++ ys else []) ≡ (if b then p ++ (xs ++ ys) else [])
in_two true b1 p p1 xs ys h k = rw (h, k) (append_assoc p xs ys)
in_two false b1 p p1 xs ys h k = rw h

module _ {S A : Type 0} where
  -- The pipeline of a cache that has one.
  abbrev pub pipeline_of : Option (TableCache S A) → List (CacheInput A)
  pipeline_of none = []
  pipeline_of (some table) = table.pipeline

  abbrev pub is_there : Option (TableCache S A) → Bool
  is_there none = false
  is_there (some table) = true

  abbrev pub closed_of : Option (TableCache S A) → Bool
  closed_of none = false
  closed_of (some table) = table.pipeline_closed

  abbrev pub AllOpen : Receiver S A → Type 0
  AllOpen r = (name : Text) → closed_of (lookup name r.tables) ≡ false

  -- What one message does.
  pub record Takes (r : Receiver S A) (msg : Option (Text × A)) (r' : Receiver S A) : Type 0 where
    pub opened : AllOpen r'
    pub enabled : r'.disable_cache ≡ false
    pub same : (name : Text) → is_there (lookup name r'.tables) ≡ is_there (lookup name r.tables)
    pub pipeline :
        (name : Text)
        → pipeline_of (lookup name r'.tables) ≡ (
            if is_there (lookup name r.tables)
            then pipeline_of (lookup name r.tables) ++ for_table name msg
            else [])

  pub unchanged :
      (o : Option (TableCache S A)) (inputs : List (CacheInput A))
      → (is_there o ≡ true → inputs ≡ [])
      → pipeline_of o ≡ (if is_there o then pipeline_of o ++ inputs else [])
  unchanged none inputs h = refl
  unchanged (some t) inputs h = rw (h refl) (sym (append-nil t.pipeline))

  append-open :
      (t : TableCache S A) (input : CacheInput A)
      → t.pipeline_closed ≡ false
      → append t input ≡ done (record t { pipeline = t.pipeline ++ input ∷ [] })
  unfolding append
  append-open t input h = rw h

  module _ (r : Receiver S A) (opened : AllOpen r) (enabled : r.disable_cache ≡ false) where
    same-Takes :
        (msg : Option (Text × A))
        → ((name : Text) → is_there (lookup name r.tables) ≡ true → for_table name msg ≡ [])
        → Takes r msg r
    same-Takes msg h = record {
      opened = opened;
      enabled = enabled;
      same = λ name. refl;
      pipeline = λ name. unchanged (lookup name r.tables) (for_table name msg) (h name);
    }

    put-Takes :
        (table : Text) (rsp : A) (t : TableCache S A)
        → lookup table r.tables ≡ some t
        → Takes r
            (some (table, rsp))
            (with_table r table (record t { pipeline = t.pipeline ++ message rsp ∷ [] }))
    put-Takes table rsp t e =
        let t' = record t { pipeline = t.pipeline ++ message rsp ∷ [] } in
        let now : (name : Text)
            → lookup name (put table t' r.tables)
              ≡ (if text_eqb name table then some t' else lookup name r.tables) =
          λ name. lookup-put table name t' r.tables in
        let at : (name : Text) → text_eqb name table ≡ true → lookup name r.tables ≡ some t =
          λ name h. ap (λ n. lookup n r.tables) ((text_eqb_iff name table).0 h) ∙ e in
        let is_open : t.pipeline_closed ≡ false = ap closed_of (sym e) ∙ opened table in
        record {
          opened = λ name.
              ap closed_of (now name)
              ∙ if_intro (λ o. closed_of o ≡ false) (text_eqb name table) (λ _. is_open)
                  (λ _. opened name);
          enabled = enabled;
          same = λ name.
              ap is_there (now name)
              ∙ if_intro (λ o. is_there o ≡ is_there (lookup name r.tables)) (text_eqb name table)
                  (λ h. sym (ap is_there (at name h))) (λ _. refl);
          pipeline = λ name. elim (Bool-cases (text_eqb name table)) [
            | inl h ↦ rw (now name, h, at name h)
            | inr h ↦ rw (now name, h) (unchanged (lookup name r.tables) [] (λ _. refl))
          ];
        }

    sub-Takes : (msg : Option (Text × Bool)) → Takes r none (take_sub r msg)
    sub-Takes none = same-Takes none (λ name h. refl)
    sub-Takes (some (topic, success)) =
        let s = same-Takes none (λ name h. refl) in
        record { opened = opened; enabled = enabled; same = s.same; pipeline = s.pipeline }

    auth-Takes : (msg : Option Bool) → Takes r none (take_auth r msg)
    auth-Takes none = same-Takes none (λ name h. refl)
    auth-Takes (some success) =
        let s = same-Takes none (λ name h. refl) in
        record { opened = opened; enabled = enabled; same = s.same; pipeline = s.pipeline }

    to_cache-Takes :
        (msg : Option (Text × A)) → (r' : Receiver S A) × (to_cache r msg ≡ fed r') × Takes r msg r'
    unfolding to_cache
    to_cache-Takes none = (r, refl, same-Takes none (λ name h. refl))
    to_cache-Takes (some (table, rsp)) = elim (Option-cases (lookup table r.tables)) [
      | inl missing ↦ (
        r,
        rw (missing, to_cache),
        same-Takes (some (table, rsp)) (λ name h. ground (arith, text_eqb_iff name table)),
      )
      | inr (t, e) ↦ (
        with_table r table (record t { pipeline = t.pipeline ++ message rsp ∷ [] }),
        rw (e, to_cache)
            (rw (enabled, append-open t (message rsp) (ap closed_of (sym e) ∙ opened table))),
        put-Takes table rsp t e,
      )
    ]

  -- Any message: those of a table go to its cache, all others leave the caches alone.
  pub handle_message-Takes :
      (d : Decoders A) (r : Receiver S A) (text : Text)
      → AllOpen r
      → r.disable_cache ≡ false
      → (r' : Receiver S A) × (handle_message d r text ≡ fed r')
        × Takes r (table_msg d text (first_kind patterns text)) r'
  unfolding handle_message
  handle_message-Takes d r text opened enabled =
      subst
        (λ k.
          (r' : Receiver S A) × (handle_message d r text ≡ fed r')
          × Takes r (table_msg d text k) r')
        (classify-first text) (by_kind (classify text))
    where
      by_kind :
          (k : Kind)
          → (r' : Receiver S A) × (handle_kind d r text k ≡ fed r')
            × Takes r (table_msg d text k) r'
      by_kind instrument = to_cache-Takes r opened enabled (d.ins_msg text)
      by_kind mbl = to_cache-Takes r opened enabled (d.mbl_msg text)
      by_kind trade = to_cache-Takes r opened enabled (d.td_msg text)
      by_kind info = (r, refl, same-Takes r opened enabled none (λ name h. refl))
      by_kind error = (r, refl, same-Takes r opened enabled none (λ name h. refl))
      by_kind unknown = (r, refl, same-Takes r opened enabled none (λ name h. refl))
      by_kind subscribe =
          (take_sub r (d.sub_msg text), refl, sub-Takes r opened enabled (d.sub_msg text))
      by_kind auth =
          (take_auth r (d.auth_msg text), refl, auth-Takes r opened enabled (d.auth_msg text))

  -- For any client whose caches are open and not bypassed, and any messages: handling them neither panics
  -- nor waits, and appends to the pipeline of each cache the responses of its table, in the order of their
  -- messages and none twice; a message that an earlier pattern claims, as one that has "info" or "error" in
  -- quotes, reaches none.
  pub handle_messages-order :
      (d : Decoders A) (texts : List Text) (r : Receiver S A)
      → AllOpen r
      → r.disable_cache ≡ false
      → (r' : Receiver S A) × (handle_messages d r texts ≡ fed r')
        × ((name : Text)
            → pipeline_of (lookup name r'.tables) ≡ (
                if is_there (lookup name r.tables)
                then pipeline_of (lookup name r.tables) ++ inputs_of d name texts
                else []))
  unfolding handle_messages
  handle_messages-order d [] r opened enabled =
      (r, refl, λ name. unchanged (lookup name r.tables) [] (λ _. refl))
  handle_messages-order d (text ∷ texts) r opened enabled =
      let (r1, run, one) = handle_message-Takes d r text opened enabled in
      let (r2, rest, all) = handle_messages-order d texts r1 one.opened one.enabled in
      (
        r2,
        rw (run, handle_messages) rest,
        λ name.
            all name
            ∙ in_two (is_there (lookup name r.tables)) (is_there (lookup name r1.tables))
                (pipeline_of (lookup name r.tables)) (pipeline_of (lookup name r1.tables))
                (for_table name (table_msg d text (first_kind patterns text)))
                (inputs_of d name texts) (one.same name) (one.pipeline name),
      )
