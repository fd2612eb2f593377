-- ===== src/Logger/Releasing.antt =====
-- lib/Logger: what `flush_logs_to` leaves of the list of records when it releases one.
use bally_os.Base.{
  ◌<◌, ◌+◌, ◌%◌, ◌≡◌, sym, ap, subst, ◌∙◌, false, List, [], ◌∷◌, ◌++◌, arith, ◌==◌, length, u32,
  sub_u32,
}
use native.Mathlib.Nat.{mod-add-mod, mod-eq_of_lt, mod-lt}
use bally_os.Logger.Records.{
  LogRecord, IsRecord, record_octets, all_octets, record_size, length-record_octets,
  length-all_octets-append, length-all_octets-cons,
}
use bally_os.Logger.Holding.{length-text, release-Holds}
use bally_os.Logger.Retained.{Retains}
use bally_os.Logger.{Logger}
use bally_os.Logger.Pending.{Pending, Current}
use bally_os.Logger.Storing.{release_record}

-- The oldest record leaves the ring.
pub release_record-Retains :
    (l : Logger) (s : LogRecord) (rs : List LogRecord)
    → Retains l.ring (s ∷ rs)
    → Retains (release_record l s.header).ring rs
unfolding release_record
release_record-Retains l s rs v =
    let ok = v.sound.0 in
    let size = length-record_octets s ok in
    record {
      holds =
          release-Holds (record_octets s) (all_octets rs) (record_size s)
            (sub_u32 l.ring.used_bytes (record_size s)) size v.holds;
      used =
          omega (arith, v.used, length-all_octets-cons s rs ok, length-text v.holds, v.holds.small);
      sound = v.sound.1;
    }

module _ (l : Logger) (s : LogRecord) (sent todo : List LogRecord)
    (v : Pending l (s ∷ sent) todo) where
  ok : IsRecord s
  ok = v.retains.sound.0

  not_all : (l.pending_send_bytes == l.ring.used_bytes) ≡ false
  not_all = ground (
    arith,
    v.pending,
    v.retains.used,
    length-all_octets-cons s (sent ++ todo) ok,
    length-all_octets-append sent todo,
  )

  left_alone : Logger
  left_alone = record l {
    ring = record (l.ring) {
      read_offset = u32 (l.ring.read_offset + record_size s) % l.ring.capacity;
      used_bytes = sub_u32 l.ring.used_bytes (record_size s);
    };
  }

  release_record-left_alone : release_record l s.header ≡ left_alone
  unfolding release_record left_alone
  release_record-left_alone = ground (arith, not_all)

  -- A record that has gone to the radio leaves the ring; those to send stay.
  pub release_record-Pending : Pending (release_record l s.header) sent todo
  unfolding left_alone
  release_record-Pending =
      let step : u32 (l.ring.read_offset + record_size s) ≡ l.ring.read_offset + record_size s =
        omega (
          arith,
          v.retains.holds.inside,
          v.retains.holds.small,
          length-text v.retains.holds,
          length-all_octets-cons s (sent ++ todo) ok,
        ) in
      subst (λ z. Pending z sent todo) (sym release_record-left_alone)
        (record {
          retains =
              subst (λ (z : Logger). Retains z.ring (sent ++ todo)) release_record-left_alone
                (release_record-Retains l s (sent ++ todo) v.retains);
          pending = v.pending;
          offset =
              v.offset
              ∙ ap (λ k. k % l.ring.capacity)
                  {y = l.ring.read_offset + record_size s + length (all_octets sent)}
                  (omega (arith, length-all_octets-cons s sent ok))
              ∙ sym (
                  mod-add-mod (l.ring.read_offset + record_size s) l.ring.capacity
                    (length (all_octets sent)))
              ∙ ap (λ k. (k % l.ring.capacity + length (all_octets sent)) % l.ring.capacity)
                  (sym step);
          current = v.current;
        })

-- A record that is still to send, and not begun, leaves both.
module _ (l : Logger) (s : LogRecord) (todo : List LogRecord) (v : Pending l [] (s ∷ todo))
    (idle : l.send_record_active ≡ false) where
  advanced : Logger
  advanced = record l {
    send_offset = u32 (l.send_offset + record_size s) % l.ring.capacity;
    pending_send_bytes = sub_u32 l.pending_send_bytes (record_size s);
    ring = record (l.ring) {
      read_offset = u32 (l.ring.read_offset + record_size s) % l.ring.capacity;
      used_bytes = sub_u32 l.ring.used_bytes (record_size s);
    };
  }

  release_record-advanced : release_record l s.header ≡ advanced
  unfolding release_record advanced
  release_record-advanced = ground (arith, v.pending, v.retains.used)

  advanced-inside : advanced.ring.read_offset < l.ring.capacity
  unfolding advanced
  advanced-inside = mod-lt _ (omega (arith, v.retains.holds.inside))

  pub release_record_unsent-Pending : Pending (release_record l s.header) [] todo
  unfolding advanced
  release_record_unsent-Pending =
      let ok = v.retains.sound.0 in
      let same : l.send_offset ≡ l.ring.read_offset =
        v.offset
        ∙ mod-eq_of_lt {n = l.ring.read_offset + 0} (omega (arith, v.retains.holds.inside))
        ∙ omega arith in
      subst (λ z. Pending z [] todo) (sym release_record-advanced)
        (record {
          retains =
              subst (λ (z : Logger). Retains z.ring todo) release_record-advanced
                (release_record-Retains l s todo v.retains);
          pending = omega (
            arith,
            v.pending,
            length-all_octets-cons s todo ok,
            length-text v.retains.holds,
            v.retains.holds.small,
          );
          offset =
              ap (λ k. u32 (k + record_size s) % l.ring.capacity) same
              ∙ sym (mod-eq_of_lt advanced-inside)
              ∙ ap (λ k. k % l.ring.capacity) (omega arith);
          current =
              subst (λ b. Current b l.send_header l.send_record_bytes_done todo) (sym idle) tt;
        })
