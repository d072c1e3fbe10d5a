-- ===== src/Shard/Clients/Tests.antt =====
-- The theorem on the clerk of a group (lec-2025/src/shardkv1/shardgrp/client.go) at concrete servers.
use mit.Base.{◌≡◌, ◌≢◌, refl, true, false, Bool, Option, none, some, List, [], ◌∷◌, String}
use mit.Base.Assoc.{Map, lookup, filter_keys, nat_eq}
use mit.Raft.State.{Bytes}
use mit.Kv.{ValueEntry}
use mit.Shard.Group.{KvServer, Json, Age, shard_age, shard_data, start_server}
use mit.Shard.Clients.{Clerk, make_clerk, freeze_shard, install_shard, delete_shard}
use mit.Shard.Clients.Once.{Once, freeze_at, install_at, delete_at, requests-Once}

-- An encoding of empty maps alone.
abbrev marshal_empty : Map String ValueEntry → Option Bytes
marshal_empty [] = some (0 ∷ [])
marshal_empty (entry ∷ m) = none

abbrev unmarshal_empty : Bytes → Option (Map String ValueEntry)
unmarshal_empty [] = none
unmarshal_empty (b ∷ bytes) = some []

abbrev json : Json
json = record { marshal = marshal_empty; unmarshal = unmarshal_empty }

abbrev clerk : Clerk
clerk = make_clerk ("s0" ∷ "s1" ∷ [])

-- The first request does not reach the server, the reply to the second is lost.
abbrev lost : List Bool
lost = false ∷ true ∷ []

abbrev server : KvServer
server = start_server 100 0

is_new : shard_age server 3 2 ≡ Age.newer
unfolding start_server lookup
is_new = refl

not_old : shard_age server 3 2 ≢ Age.old
unfolding start_server lookup
not_old = λ h. cc

requests-Once_example :
    Once (λ r. r.err) (freeze_at json 3 2) server lost (freeze_shard clerk) clerk
    × Once (λ r. r.err) (install_at json 3 (0 ∷ []) 2) server lost (install_shard clerk) clerk
    × Once (λ r. r.err) (delete_at 3 2) server lost (delete_shard clerk) clerk
unfolding start_server lookup shard_data filter_keys
requests-Once_example =
    requests-Once json clerk lost server server 3 2 (0 ∷ []) [] is_new refl refl is_new refl server
      not_old
