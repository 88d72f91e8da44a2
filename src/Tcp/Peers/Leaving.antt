-- ===== src/Tcp/Peers/Leaving.antt =====
-- modules/tcp/Module.cc: what `DiscoveryMessageCallback` leaves of a client that disconnects.
use aitt.Base.{
  ◌≡◌, ◌∙◌, refl, ap, Bool, [], ◌∷◌, Option, none, some, if◌then◌else◌, Text, text_eq, lookup,
  erase, text_key, lookup-erase, arith, Bool-cases, inl, inr,
}
use aitt.Flex.{Flexbuffers}
use aitt.Tcp.Peers.{
  Peers, HostMap, PublishMap, erase_client, will_leave_network, discovery_message_callback,
}
use aitt.Tcp.Peers.Table.{info_at, host_of}

-- The hosts of a topic, without the client.
without : Text → Option HostMap → Option HostMap
without client_id none = none
without client_id (some hosts) = some (erase client_id hosts)

lookup-erase_client :
    (client_id t : Text) (table : PublishMap)
    → lookup t (erase_client client_id table) ≡ without client_id (lookup t table)
unfolding lookup erase_client without
lookup-erase_client client_id t [] = refl
lookup-erase_client client_id t ((s, hosts) ∷ table) =
    let ih = lookup-erase_client client_id t table in
    elim (Bool-cases (text_eq t s)) [ inl e ↦ ground arith | inr e ↦ ground arith ]

host_of-without :
    (client_id c : Text) (o : Option HostMap)
    → host_of c (without client_id o) ≡ (if text_eq client_id c then none else host_of c o)
unfolding without
host_of-without client_id c none = ground arith
host_of-without client_id c (some hosts) = lookup-erase client_id c hosts

pub info_at-erase_client :
    (client_id t c : Text) (table : PublishMap)
    → info_at t c (erase_client client_id table)
      ≡ (if text_eq client_id c then none else info_at t c table)
info_at-erase_client client_id t c table =
    ap (host_of c) (lookup-erase_client client_id t table)
    ∙ host_of-without client_id c (lookup t table)

-- A client whose status is "disconnected" keeps no entry at any topic and no host; the entries and
-- the hosts of the other clients stay.
pub discovery_message_callback_leaving :
    (flex : Flexbuffers) (secure : Bool) (client_id msg t c : Text) (p : Peers)
    → let q = discovery_message_callback flex secure client_id will_leave_network msg p in
      (info_at t c q.publish_table
        ≡ (if text_eq client_id c then none else info_at t c p.publish_table))
      × (lookup c q.client_table ≡ (if text_eq client_id c then none else lookup c p.client_table))
unfolding discovery_message_callback text_eq
discovery_message_callback_leaving flex secure client_id msg t c p =
    (info_at-erase_client client_id t c p.publish_table, lookup-erase client_id c p.client_table)
