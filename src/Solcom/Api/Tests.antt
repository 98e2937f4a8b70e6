-- ===== src/Solcom/Api/Tests.antt =====
-- Runs of SolcomApi on small states.
use cpp_linux_learn.Common.{
  ℕ, zero, suc, subst, ◌-◌, ◌^◌, ◌≡◌, refl, true, false, some, [], ◌∷◌, ◌++◌, get_elem?, arith,
}
use cpp_linux_learn.Solcom.ByteArray
use cpp_linux_learn.Solcom.ByteArray.{ByteArray}
use cpp_linux_learn.Solcom.CachedBuffer.Positions
use cpp_linux_learn.Solcom.CachedBuffer.Fifo.{posted}
use cpp_linux_learn.Solcom.Codec.{
  recv_head, plain, test, Serializable, head_bytes, get_cached_obj, store_cached_obj,
}
use cpp_linux_learn.Solcom.Codec.Digits.{le_bytes}
use cpp_linux_learn.Solcom.Codec.Head.{InRange}
use cpp_linux_learn.Solcom.Codec.RoundTrip.{wire}
use cpp_linux_learn.Solcom.Api.{idle_cb}
use cpp_linux_learn.Solcom.Api.{Api, uv_write, on_recv_msg, success, post_msg}
use cpp_linux_learn.Solcom.Api.Post.{IsReady, create-IsReady, posted_head}
use cpp_linux_learn.Solcom.Api.Sending.{IsSendable, queue, post_msg-room}
use cpp_linux_learn.Solcom.Api.Receive.{Part, stream, feed}
use cpp_linux_learn.Solcom.Api.Message.{IsReceptive, IsCached, SameOutside}
use cpp_linux_learn.Solcom.Api.Delivery.{feed-message}
use cpp_linux_learn.Solcom.Api.EndToEnd.{post_msg-on_recv_msg}

abbrev pub junk : ℕ → ℕ
junk i = 7

abbrev pub new_array : ByteArray
new_array = ByteArray.create junk 0

pub new_array-IsReady : IsReady new_array
new_array-IsReady = create-IsReady junk 0 (omega arith)

abbrev pub a_heartbeat : Serializable
a_heartbeat = record { n_type = 1; members = plain }

-- A connected object with two slots and nothing to send.
abbrev pub idle_api : Api
idle_api = record {
  has_spi = true;
  has_addr = true;
  send_cache = record {
    elements = new_array ∷ new_array ∷ [];
    capacity = 2;
    head = 0;
    current = 0;
    tail = 2 ^ 64 - 1;
  };
  ack_buffer = new_array;
  ack_pending = false;
  connected = true;
  stop = false;
  auto_reconn = true;
  obj_cache = record {
    hb_cmd = a_heartbeat;
    tst_cmd = record { n_type = 2; members = test [] [] [] };
  };
  recv_buffer = new_array;
  recv_stat = recv_head;
  need_read = 12;
  last_read = 0;
  last_write = 0;
  req_busy = false;
}

pub idle_ring-IsValid : Positions.IsValid idle_api.send_cache
idle_ring-IsValid = record {
  power = (1, refl, omega arith);
  sized = refl;
  fits = omega arith;
  head_u64 = omega arith;
  tail_u64 = omega arith;
}

idle_slots : (i : ℕ) (s : ByteArray) → get_elem? idle_api.send_cache.elements i ≡ some s → IsReady s
idle_slots zero s e = subst IsReady (cc e) new_array-IsReady
idle_slots (suc zero) s e = subst IsReady (cc e) new_array-IsReady
idle_slots (suc (suc i)) s e = absurd (cc e)

idle_api-IsSendable : IsSendable idle_api
idle_api-IsSendable = record { ring = idle_ring-IsValid; slots = idle_slots }

idle_api-IsReceptive : IsReceptive idle_api
unfolding ByteArray.create
idle_api-IsReceptive = record {
  stat = refl;
  need = refl;
  ready = new_array-IsReady;
  at_left = refl;
  at_right = refl;
}

a_heartbeat-IsCached : IsCached a_heartbeat idle_api
unfolding get_cached_obj
a_heartbeat-IsCached = record {
  spi = refl;
  sized = tt;
  old = a_heartbeat;
  cached = refl;
  same_class = tt;
}

-- The head of a heartbeat with the number 5, in two parts, and its one byte.
abbrev pub head_part : Part
head_part = record { at = 1; first = 0; others = 0 ∷ 1 ∷ [] }

abbrev pub head_rest : Part
head_rest = record { at = 2; first = 0; others = 5 ∷ 0 ∷ 0 ∷ 0 ∷ 0 ∷ 0 ∷ 0 ∷ 0 ∷ [] }

abbrev body_part : Part
body_part = record { at = 2; first = 1; others = [] }

head_parts-stream : stream (head_part ∷ head_rest ∷ []) ≡ head_bytes (posted_head a_heartbeat 5 0)
unfolding le_bytes
head_parts-stream = refl

post_msg-on_recv_msg_example :
    (b c d : Api) × (post_msg junk a_heartbeat 5 0 idle_api ≡ some (b, success))
    × (idle_cb junk 3 b
        ≡ some (c, uv_write (stream (head_part ∷ head_rest ∷ []) ++ stream (body_part ∷ [])) ∷ []))
    × (feed junk ((head_part ∷ head_rest ∷ []) ++ body_part ∷ []) idle_api
        ≡ some (d, on_recv_msg a_heartbeat ∷ []))
    × IsReceptive d
post_msg-on_recv_msg_example =
    post_msg-on_recv_msg junk a_heartbeat 5 0 3 idle_api idle_api head_part body_part
      (head_rest ∷ []) [] idle_api-IsSendable refl refl refl refl (omega arith) (omega arith)
      (omega arith) idle_api-IsReceptive a_heartbeat-IsCached head_parts-stream refl

feed-message_example :
    (b : Api) × (feed junk ((head_part ∷ head_rest ∷ []) ++ body_part ∷ []) idle_api
      ≡ some (b, on_recv_msg a_heartbeat ∷ []))
    × IsReceptive b
    × SameOutside idle_api b
    × (b.obj_cache ≡ store_cached_obj idle_api.obj_cache 1 a_heartbeat)
feed-message_example =
    feed-message junk (posted_head a_heartbeat 5 0) a_heartbeat head_part body_part (head_rest ∷ [])
      [] idle_api idle_api-IsReceptive a_heartbeat-IsCached in_range refl head_parts-stream refl
  where
    in_range : InRange (posted_head a_heartbeat 5 0)
    in_range = omega arith

post_msg-room_example :
    (a' : Api) × (s : ByteArray) × (post_msg junk a_heartbeat 5 0 idle_api ≡ some (a', success))
    × (queue a' ≡ queue idle_api ++ s ∷ [])
    × (ByteArray.contents s ≡ head_bytes (posted_head a_heartbeat 5 0) ++ wire a_heartbeat)
    × ByteArray.IsValid s
    × (s.left ≡ 0)
    × IsSendable a'
    × (a' ≡ record idle_api { send_cache = posted idle_api.send_cache s })
post_msg-room_example =
    post_msg-room junk a_heartbeat 5 0 idle_api idle_api-IsSendable tt refl (omega arith)
