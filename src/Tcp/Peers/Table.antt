-- ===== src/Tcp/Peers/Table.antt =====
-- modules/tcp/Module.cc: the publish table as a function of the topic and the client, and what
-- `UpdatePublishTable` and the loop of `DiscoveryMessageCallback` do to it.
use aitt.Base.{
  ◌≡◌, ◌≢◌, ◌⊎◌, Option-cases, refl, ap, subst, ◌++◌, text_eq_refl, ◌∙◌, Bool, true, false, ◌&&◌,
  List, [], ◌∷◌, Option, none, some, if◌then◌else◌, Text, text_eq, text_eq_iff, c_str, lookup,
  insert, text_key, ◌==◌, lookup-insert, arith, All, Bool-cases, inl, inr,
}
use aitt.Flex.{Item, Flexbuffers}
use aitt.Tcp.Peers.{
  ConnectInfo, PortInfo, HostMap, PublishMap, renewed, update_publish_table, update_topics,
  read_connect_info, host_key,
}

-- The entry of a client at a topic.
abbrev pub host_of : Text → Option HostMap → Option PortInfo
host_of c none = none
host_of c (some hosts) = lookup c hosts

abbrev pub info_at : Text → Text → PublishMap → Option PortInfo
info_at t c table = host_of c (lookup t table)

same_place : (t c : Text) → text_eq t t && text_eq c c ≡ true
same_place t c = ground (arith, text_eq_refl t, text_eq_refl c)

other_place : (t c t' c' : Text) → ¬ ((t ≡ t') × (c' ≡ c)) → text_eq t t' && text_eq c c' ≡ false
other_place t c t' c' h = ground (arith, text_eq_iff t t', text_eq_iff c c')

-- What an announcement makes of the entry that was there: the same port keeps its keys and its
-- connection, and gets the new number of callbacks; anything else is announced anew.
abbrev pub merged : ConnectInfo → Option PortInfo → PortInfo
merged info none = record { info = info; client = none }
merged info (some p) =
    if p.info.port == info.port
    then record {
      info = record {
        port = p.info.port;
        num_of_cb = info.num_of_cb;
        secure = p.info.secure;
        key = p.info.key;
        iv = p.info.iv;
      };
      client = p.client;
    }
    else record { info = info; client = none }

abbrev entry_made : ConnectInfo → Option PortInfo → PortInfo
entry_made info none = record { info = info; client = none }
entry_made info (some p) = renewed info p

entry_made-merged : (info : ConnectInfo) (o : Option PortInfo) → entry_made info o ≡ merged info o
unfolding renewed
entry_made-merged info none = refl
entry_made-merged info (some p) = refl

module _ (topic client_id : Text) (info : ConnectInfo) (table : PublishMap) (t c : Text) where
  update_none :
      lookup topic table ≡ none
      → info_at t c (update_publish_table topic client_id info table) ≡ (
          if text_eq topic t && text_eq client_id c
          then some (merged info (info_at topic client_id table))
          else info_at t c table)
  unfolding update_publish_table lookup
  update_none e = ground (
    arith,
    lookup-insert topic t
        ((client_id, let p : PortInfo = record { info = info; client = none } in p) ∷ []) table,
    text_eq_iff topic t,
    text_eq_iff client_id c,
  )

  entered :
      (hosts : HostMap)
      → lookup topic table ≡ some hosts
      → update_publish_table topic client_id info table
        ≡ insert topic (insert client_id (entry_made info (lookup client_id hosts)) hosts) table
  unfolding update_publish_table
  entered hosts e = ground arith

  updated :
      (hosts : HostMap)
      → lookup topic table ≡ some hosts
      → update_publish_table topic client_id info table
        ≡ insert topic (insert client_id (merged info (lookup client_id hosts)) hosts) table
  updated hosts e =
      entered hosts e
      ∙ ap (λ p. insert topic (insert client_id p hosts) table)
          (entry_made-merged info (lookup client_id hosts))

  update_some :
      (hosts : HostMap)
      → lookup topic table ≡ some hosts
      → info_at t c (update_publish_table topic client_id info table) ≡ (
          if text_eq topic t && text_eq client_id c
          then some (merged info (info_at topic client_id table))
          else info_at t c table)
  update_some hosts e =
      let p = merged info (lookup client_id hosts) in
      ground (
        arith,
        updated hosts e,
        lookup-insert topic t (insert client_id p hosts) table,
        lookup-insert client_id c p hosts,
        text_eq_iff topic t,
        text_eq_iff client_id c,
      )

  -- `UpdatePublishTable` changes the entry of the client at the topic, and no other.
  pub info_at-update : info_at t c (update_publish_table topic client_id info table) ≡ (
      if text_eq topic t && text_eq client_id c
      then some (merged info (info_at topic client_id table))
      else info_at t c table)
  info_at-update = elim (Option-cases (lookup topic table)) [
    | inl e ↦ update_none e
    | inr (hosts, e) ↦ update_some hosts e
  ]

module _ (flex : Flexbuffers) (secure : Bool) (client_id : Text) (items : Text → List Item) where
  -- Whether one of the keys announces the topic.
  abbrev pub Announces : Text → List Text → Type 0
  Announces t [] = ⊥
  Announces t (key ∷ keys) = ((c_str key ≡ t) × (t ≢ host_key)) ⊎ Announces t keys

  -- One key, by what it announces.
  topics_host :
      (key : Text) (keys : List Text) (table : PublishMap)
      → c_str key ≡ host_key
      → update_topics flex secure client_id items (key ∷ keys) table
        ≡ update_topics flex secure client_id items keys table
  unfolding update_topics
  topics_host key keys table e = ground (arith, text_eq_iff (c_str key) host_key)

  topics_stop :
      (key : Text) (keys : List Text) (table : PublishMap)
      → c_str key ≢ host_key
      → read_connect_info flex secure (items (c_str key)) ≡ none
      → update_topics flex secure client_id items (key ∷ keys) table ≡ table
  unfolding update_topics
  topics_stop key keys table e r = ground (arith, text_eq_iff (c_str key) host_key)

  topics_next :
      (key : Text) (keys : List Text) (table : PublishMap) (info : ConnectInfo)
      → c_str key ≢ host_key
      → read_connect_info flex secure (items (c_str key)) ≡ some info
      → update_topics flex secure client_id items (key ∷ keys) table
        ≡ update_topics flex secure client_id items keys
            (update_publish_table (c_str key) client_id info table)
  unfolding update_topics
  topics_next key keys table info e r = ground (arith, text_eq_iff (c_str key) host_key)

  host_or_not : (key : Text) → (c_str key ≡ host_key) ⊎ (c_str key ≢ host_key)
  host_or_not key = elim (Bool-cases (text_eq (c_str key) host_key)) [
    | inl e ↦ inl ((text_eq_iff (c_str key) host_key).0 e)
    | inr e ↦ inr (ground (arith, text_eq_iff (c_str key) host_key))
  ]

  other_entry :
      (key t c : Text) (info : ConnectInfo) (table : PublishMap)
      → ¬ ((c_str key ≡ t) × (c ≡ client_id))
      → info_at t c (update_publish_table (c_str key) client_id info table) ≡ info_at t c table
  other_entry key t c info table h =
      info_at-update (c_str key) client_id info table t c
      ∙ ap
          (λ b.
            if b
            then some (merged info (info_at (c_str key) client_id table))
            else info_at t c table)
          (other_place (c_str key) client_id t c h)

  -- An announcement leaves what it does not name: the entries of the other clients, and those of
  -- its client at topics that are not in the message, also if they were in an earlier one.
  pub update_topics-frame :
      (keys : List Text) (table : PublishMap) (t c : Text)
      → ¬ (Announces t keys × (c ≡ client_id))
      → info_at t c (update_topics flex secure client_id items keys table) ≡ info_at t c table
  unfolding update_topics
  update_topics-frame [] table t c h = refl
  update_topics-frame (key ∷ keys) table t c h = elim (host_or_not key) [
    | inl e ↦
        ap (info_at t c) (topics_host key keys table e)
        ∙ update_topics-frame keys table t c (λ (a, b). h (inr a, b))
    | inr e ↦ elim (Option-cases (read_connect_info flex secure (items (c_str key)))) [
      | inl r ↦ ap (info_at t c) (topics_stop key keys table e r)
      | inr (info, r) ↦
          ap (info_at t c) (topics_next key keys table info e r)
          ∙ update_topics-frame keys (update_publish_table (c_str key) client_id info table) t c
              (λ (a, b). h (inr a, b))
          ∙ other_entry key t c info table (λ (a, b). h (inl (a, subst (λ x. x ≢ host_key) a e), b))
    ]
  ]

  -- When an announcement has been read, the entry of its client at a topic in it is the announced
  -- one: a new one, or, where an entry with the same port was there, that one with the new number
  -- of callbacks. The topic is not "host", no other key of the message is the same topic, and no
  -- key before it has an entry that stops the loop.
  pub update_topics-announced :
      (before : List Text) (key : Text) (after : List Text) (table : PublishMap)
      (info : ConnectInfo)
      → c_str key ≢ host_key
      → ¬ Announces (c_str key) before
      → ¬ Announces (c_str key) after
      → All (λ k. read_connect_info flex secure (items (c_str k)) ≢ none) before
      → read_connect_info flex secure (items (c_str key)) ≡ some info
      → info_at
          (c_str key)
          client_id
          (update_topics flex secure client_id items (before ++ key ∷ after) table)
        ≡ some (merged info (info_at (c_str key) client_id table))
  unfolding update_topics
  update_topics-announced [] key after table info e nb na ok r =
      let t = c_str key in
      ap (info_at t client_id) (topics_next key after table info e r)
      ∙ update_topics-frame after (update_publish_table t client_id info table) t client_id
          (λ (a, b). na a)
      ∙ info_at-update t client_id info table t client_id
      ∙ ap
          (λ b.
            if b then some (merged info (info_at t client_id table)) else info_at t client_id table)
          (same_place t client_id)
  update_topics-announced (k ∷ before) key after table info e nb na ok r = elim (host_or_not k) [
    | inl h ↦
        ap (info_at (c_str key) client_id) (topics_host k (before ++ key ∷ after) table h)
        ∙ update_topics-announced before key after table info e (λ a. nb (inr a)) na ok.1 r
    | inr h ↦ elim (Option-cases (read_connect_info flex secure (items (c_str k)))) [
      | inl z ↦ absurd (ok.0 z)
      | inr (i, z) ↦
          ap (info_at (c_str key) client_id) (topics_next k (before ++ key ∷ after) table i h z)
          ∙ update_topics-announced before key after
              (update_publish_table (c_str k) client_id i table) info e (λ a. nb (inr a)) na ok.1 r
          ∙ ap (λ o. some (merged info o))
              (other_entry k (c_str key) client_id i table (λ (a, b). nb (inl (a, e))))
    ]
  ]
