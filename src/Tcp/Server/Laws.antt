-- ===== src/Tcp/Server/Laws.antt =====
-- modules/tcp/Module.cc: `Subscribe` and `Unsubscribe` undo each other.
use aitt.Base.{
  ℕ, ◌≡◌, ◌≢◌, ◌∙◌, refl, ap, Bool, true, false, if◌then◌else◌, c_str, map, List, [], ◌∷◌, ◌++◌,
  Option, none, some, ltb, length, length-append, Text, lookup, insert, erase, number_key,
  lookup-insert, erase-insert, arith, All, codes,
}
use aitt.Types.{ok}
use aitt.Flex.{Field, Flexbuffers, str, vector, num, bytes}
use aitt.Tcp.Server.{
  Callback, ListenInfo, accepts, Server, NewServer, find_topic, subscribe, unsubscribe,
  without_callback, take_down, remove_watches, update_discovery_msg, topic_fields,
}

without_callback-append :
    (c : Callback) (cs : List Callback)
    → All (λ d. d.addr ≢ c.addr) cs
    → without_callback c.addr (cs ++ c ∷ []) ≡ some cs
unfolding without_callback
without_callback-append c [] n = ground arith
without_callback-append c (d ∷ cs) n = ground (arith, without_callback-append c cs n.1, n.0)

-- The listener that a topic gets with its first callback.
abbrev pub new_listener : Callback → Text → NewServer → ListenInfo
new_listener c topic n = record {
  topic = topic;
  cb_list = c ∷ [];
  client_list = [];
  port = n.port;
  handle = n.handle;
  key = n.key;
  iv = n.iv;
}

-- What is announced of a listener: its topic, with its port and how many callbacks it has, and on an
-- encrypted line its keys.
abbrev pub entry_of : Bool → ℕ × ListenInfo → Text × Field
entry_of secure (a, l) = (
  c_str l.topic,
  vector (
      num l.port ∷ num (length l.cb_list) ∷ (if secure then bytes l.key ∷ bytes l.iv ∷ [] else [])),
)

abbrev pub announcement : Flexbuffers → Text → Bool → List (ℕ × ListenInfo) → Text
announcement flex ip secure table =
    flex.build_map ((codes "host", str ip) ∷ map (entry_of secure) table)

topic_fields-map :
    (secure : Bool) (table : List (ℕ × ListenInfo))
    → topic_fields secure table ≡ map (entry_of secure) table
unfolding topic_fields
topic_fields-map secure [] = refl
topic_fields-map true ((a, l) ∷ table) =
    ap (λ r. entry_of true (a, l) ∷ r) (topic_fields-map true table)
topic_fields-map false ((a, l) ∷ table) =
    ap (λ r. entry_of false (a, l) ∷ r) (topic_fields-map false table)

module _ (flex : Flexbuffers) (ip : Text) (secure : Bool) (c : Callback) (topic : Text) (s : Server)
    (new : lookup c.addr s.subscribe_handles ≡ none) where
  handles_back :
      (a : ℕ)
      → (lookup c.addr (insert c.addr (c, a) s.subscribe_handles) ≡ some (c, a))
        × (erase c.addr (insert c.addr (c, a) s.subscribe_handles) ≡ s.subscribe_handles)
  handles_back a = (
    ground (arith, lookup-insert c.addr c.addr (c, a) s.subscribe_handles),
    erase-insert c.addr (c, a) s.subscribe_handles new,
  )

  -- A topic that no one listens for, and new addresses: `Subscribe` makes a server, and
  -- `Unsubscribe` takes it down again and gives back the callback's data. The tables and the
  -- watches are what they were. The table with the new listener, which has this callback, is
  -- announced, and then the table without it.
  pub unsubscribe-subscribe_new :
      (n : NewServer)
      → find_topic topic s.subscribe_table ≡ none
      → lookup n.addr s.subscribe_table ≡ none
      → lookup n.handle s.watches ≡ none
      → let s1 = (subscribe flex ip secure true c (some n) topic s).0 in
        let r = unsubscribe flex ip secure true c.addr s1 in
        (r.1 ≡ ok c.cbdata)
        × (r.0.subscribe_table ≡ s.subscribe_table)
        × (r.0.subscribe_handles ≡ s.subscribe_handles)
        × (r.0.watches ≡ s.watches)
        × (lookup n.addr s1.subscribe_table ≡ some (new_listener c topic n))
        × (r.0.announced
            ≡ announcement flex ip secure s.subscribe_table
              ∷ announcement flex ip secure
                  (insert n.addr (new_listener c topic n) s.subscribe_table)
              ∷ s.announced)
  unfolding subscribe unsubscribe take_down remove_watches update_discovery_msg
  unsubscribe-subscribe_new n f t w =
      let l = new_listener c topic n in
      let f0 = topic_fields-map secure s.subscribe_table in
      let f1 = topic_fields-map secure (insert n.addr l s.subscribe_table) in
      let h = handles_back n.addr in
      let h0 = h.0 in
      let h1 = h.1 in
      let t0 = lookup-insert n.addr n.addr l s.subscribe_table in
      let t1 = erase-insert n.addr l s.subscribe_table t in
      let w1 = erase-insert n.handle (accepts n.addr) s.watches w in ground arith

  -- A topic that others of this client subscribe to already, and a new address: `Unsubscribe`
  -- undoes what `Subscribe` did to the tables and gives back the callback's data, but announces
  -- nothing. The last announcement stays the one of `Subscribe`, which counts the callback that
  -- is gone.
  pub unsubscribe-subscribe_known :
      (created : Option NewServer) (published : Bool) (a : ℕ) (l : ListenInfo)
      → find_topic topic s.subscribe_table ≡ some (a, l)
      → lookup a s.subscribe_table ≡ some l
      → l.cb_list ≢ []
      → All (λ d. d.addr ≢ c.addr) l.cb_list
      → let s1 = (subscribe flex ip secure true c created topic s).0 in
        let r = unsubscribe flex ip secure published c.addr s1 in
        (r.1 ≡ ok c.cbdata)
        × ((x : ℕ) → lookup x r.0.subscribe_table ≡ lookup x s.subscribe_table)
        × (r.0.subscribe_handles ≡ s.subscribe_handles)
        × (r.0.watches ≡ s.watches)
        × (r.0.announced
            ≡ flex.build_map (
                (codes "host", str ip)
                ∷ topic_fields secure
                    (insert a (record l { cb_list = l.cb_list ++ c ∷ [] }) s.subscribe_table))
              ∷ s.announced)
  unfolding subscribe unsubscribe update_discovery_msg
  unsubscribe-subscribe_known created published a l f t ne fresh =
      let l' : ListenInfo = record l { cb_list = l.cb_list ++ c ∷ [] } in
      let table' = insert a l' s.subscribe_table in
      let h = handles_back a in
      let h0 = h.0 in
      let h1 = h.1 in
      let t0 : lookup a table' ≡ some l' = ground (arith, lookup-insert a a l' s.subscribe_table) in
      let many : ltb 1 (length l'.cb_list) ≡ true = more_than_one l.cb_list ne in
      let back = without_callback-append c l.cb_list fresh in
      let look : (x : ℕ) → lookup x (insert a l table') ≡ lookup x s.subscribe_table =
        λ x. ground (arith, lookup-insert a x l table', lookup-insert a x l' s.subscribe_table) in
      let s2 : Server = record s {
        subscribe_table = insert a l table';
        announced =
            flex.build_map ((codes "host", str ip) ∷ topic_fields secure table') ∷ s.announced;
      } in
      let e : unsubscribe flex ip secure published c.addr
            (subscribe flex ip secure true c created topic s).0
          ≡ (s2, ok c.cbdata) =
        ground arith in
      (
        ap (λ r. r.1) e,
        λ x. ap (λ r. lookup x r.0.subscribe_table) e ∙ look x,
        ap (λ r. r.0.subscribe_handles) e,
        ap (λ r. r.0.watches) e,
        ap (λ r. r.0.announced) e,
      )
    where
      more_than_one : (cs : List Callback) → cs ≢ [] → ltb 1 (length (cs ++ c ∷ [])) ≡ true
      more_than_one [] ne = absurd (ne refl)
      more_than_one (d ∷ cs) ne = ground (arith, length-append cs (c ∷ []))
