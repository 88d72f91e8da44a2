-- ===== src/Tests/Sessions.antt =====
-- The theorems on src/aitt_c.cc at a concrete session.
use aitt.Base.{◌≢◌, refl, true, false, List, [], ◌∷◌, none, some, codes, All}
use aitt.CApi.{not_ready, Handle}
use aitt.CApi.Session.{
  Operation, disconnecting, publishing, unsubscribing, answers, answers-never_not_ready,
}

abbrev session : List Operation
session =
    disconnecting true
    ∷ publishing true (some (codes "t")) (some (codes "m")) 2 0
    ∷ unsubscribing true none
    ∷ []

abbrev connected_handle : Handle
connected_handle = record { has_client = true; connected = true; custom_broker = false; calls = [] }

abbrev new_handle : Handle
new_handle = record { has_client = true; connected = false; custom_broker = false; calls = [] }

answers-never_not_ready_example : All (λ c. c ≢ not_ready) (answers session connected_handle)
answers-never_not_ready_example = answers-never_not_ready session connected_handle refl refl
