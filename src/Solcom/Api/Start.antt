-- ===== src/Solcom/Api/Start.antt =====
-- A new SolcomApi.
use cpp_linux_learn.Common.{
  ℕ, ◌^◌, ◌≡◌, refl, true, false, ◌-◌, subst, sym, some, replicate, get_elem?-replicate,
  length-replicate, arith,
}
use cpp_linux_learn.Solcom.ByteArray
use cpp_linux_learn.Solcom.ByteArray.{ByteArray}
use cpp_linux_learn.Solcom.CachedBuffer
use cpp_linux_learn.Solcom.CachedBuffer.Positions.{used}
use cpp_linux_learn.Solcom.Codec.{Members, heartbeat_command, type_test_cmd, recv_head}
use cpp_linux_learn.Solcom.Api.{Api, create_api}
use cpp_linux_learn.Solcom.Api.Post.{IsReady, create-IsReady}
use cpp_linux_learn.Solcom.Api.Sending.{IsSendable}
use cpp_linux_learn.Solcom.Api.Message.{IsReceptive}

-- The constructor makes an object with 128 free slots, each large enough for a message, whose
-- current position is its head, that waits for a head and has no write in flight.
pub create_api-IsSendable :
    (junk : ℕ → ℕ) (fresh : Members) (r w : ℕ)
    → (a : Api) × (create_api junk fresh r w ≡ some a)
      × IsSendable a
      × IsReceptive a
      × (a.send_cache.capacity ≡ 128)
      × (used a.send_cache ≡ 0)
      × (a.send_cache.current ≡ a.send_cache.head)
      × (a.req_busy ≡ false)
unfolding create_api ByteArray.create CachedBuffer.create CachedBuffer.count_bits
    CachedBuffer.round_capacity
create_api-IsSendable junk fresh r w = (
  record {
    has_spi = false;
    has_addr = false;
    send_cache = record {
      elements = replicate 128 (ByteArray.create junk 1424);
      capacity = 128;
      head = 0;
      current = 0;
      tail = 2 ^ 64 - 1;
    };
    ack_buffer = ByteArray.create junk 128;
    ack_pending = false;
    connected = false;
    stop = false;
    auto_reconn = true;
    obj_cache = record {
      hb_cmd = heartbeat_command;
      tst_cmd = record { n_type = type_test_cmd; members = fresh };
    };
    recv_buffer = ByteArray.create junk 1424;
    recv_stat = recv_head;
    need_read = 12;
    last_read = r;
    last_write = w;
    req_busy = false;
  },
  refl,
  record {
    ring = record {
      power = (7, refl, omega arith);
      sized = length-replicate 128 (ByteArray.create junk 1424);
      fits = omega arith;
      head_u64 = omega arith;
      tail_u64 = omega arith;
    };
    slots = λ i s e.
        subst IsReady (sym (get_elem?-replicate 128 i (ByteArray.create junk 1424) s e))
          (create-IsReady junk 1424 (omega arith));
  },
  record {
    stat = refl;
    need = refl;
    ready = create-IsReady junk 1424 (omega arith);
    at_left = refl;
    at_right = refl;
  },
  refl,
  refl,
  refl,
  refl,
)
