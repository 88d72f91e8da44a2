-- ===== src/Tests/Replies.antt =====
-- The theorem on `PublishWithReplySync` of src/AITTImpl.cc at a concrete client.
use aitt.Base.{ℕ, suc, true, false, List, [], ◌∷◌, codes}
use aitt.Types.{ok}
use aitt.Msg.{new_msg, set_end_sequence}
use aitt.Impl.{Transport, Client}
use aitt.Impl.Sync.{Happens, replied, expired, info_of}

-- The state counts the handles that were given.
abbrev broker : Transport ℕ
broker = record {
  publish = λ topic payload s. (s, ok tt);
  publish_with_reply = λ topic payload reply correlation s. (s, ok tt);
  subscribe = λ topic s. (suc s, ok (suc s));
  unsubscribe = λ handle s. (s, ok 0);
  count_subscriber = λ topic s. 0;
}

abbrev waiting_client : Client ℕ (Unit {0})
waiting_client = record {
  running = true;
  subscribed_list = [];
  mq = 5;
  mq_discovery = record {
    id = codes "a";
    my_subscribe_table = [];
    remote_subscribe_table = [];
    announced = [];
  };
  tcp_module = tt;
  secure_module = tt;
  reply_id = 0;
}

-- A first reply sets the timer 3, the timer 2 is late, and the last reply comes before the timer 3.
abbrev replies : List Happens
replies = replied (set_end_sequence false new_msg) ∷ expired 2 ∷ replied new_msg ∷ expired 3 ∷ []

-- The client has a subscription already.
abbrev busy_client : Client ℕ (Unit {0})
busy_client = record waiting_client { subscribed_list = info_of 8 1 ∷ [] }
