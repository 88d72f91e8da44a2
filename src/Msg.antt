-- ===== src/Msg.antt =====
-- common/AittMsg.cc and include/AittMsg.h: what a subscriber's callback is told of a message.
use aitt.Base.{ℕ, zero, suc, Bool, true, false, [], Text, ℤ, pos, negsuc, not, ◌||◌, if◌then◌else◌}
use aitt.Types.{AittProtocol, mqtt}

-- `id` is a pointer, 0 for nullptr. `sequence` is an `int`; counting it up past INT_MAX, which is
-- undefined in the source, is not bounded here.
pub record AittMsg : Type 0 where
  pub topic : Text
  pub correlation : Text
  pub reply_topic : Text
  pub sequence : ℤ
  pub end_sequence : Bool
  pub id : ℕ
  pub protocol : AittProtocol

-- `AittMsg::AittMsg()`
unfoldable pub new_msg : AittMsg
new_msg = record {
  topic = [];
  correlation = [];
  reply_topic = [];
  sequence = pos 0;
  end_sequence = true;
  id = 0;
  protocol = mqtt;
}

unfoldable pub set_id : ℕ → AittMsg → AittMsg
set_id i m = record m { id = i }

unfoldable pub set_topic : Text → AittMsg → AittMsg
set_topic t m = record m { topic = t }

unfoldable pub set_correlation : Text → AittMsg → AittMsg
set_correlation c m = record m { correlation = c }

unfoldable pub set_response_topic : Text → AittMsg → AittMsg
set_response_topic t m = record m { reply_topic = t }

unfoldable pub set_sequence : ℤ → AittMsg → AittMsg
set_sequence n m = record m { sequence = n }

abbrev pub next_int : ℤ → ℤ
next_int (pos n) = pos (suc n)
next_int (negsuc zero) = pos 0
next_int (negsuc (suc n)) = negsuc n

abbrev pub is_zero_int : ℤ → Bool
is_zero_int (pos zero) = true
is_zero_int (pos (suc n)) = false
is_zero_int (negsuc n) = false

unfoldable pub increase_sequence : AittMsg → AittMsg
increase_sequence m = record m { sequence = next_int m.sequence }

unfoldable pub set_end_sequence : Bool → AittMsg → AittMsg
set_end_sequence b m = record m { end_sequence = b }

unfoldable pub set_protocol : AittProtocol → AittMsg → AittMsg
set_protocol p m = record m { protocol = p }

-- `AITT::Impl::SendReply` (src/AITTImpl.cc) numbers a reply before it is sent: the only reply of a
-- request keeps the number 0, and the replies of a sequence are counted from 1.
unfoldable pub number_reply : Bool → AittMsg → AittMsg
unfolding increase_sequence set_end_sequence
number_reply end m =
    set_end_sequence end
      (if not end || not (is_zero_int m.sequence) then increase_sequence m else m)
