-- ===== src/Connection/Output.antt =====
-- The bytes that a connection sends, and when it ends.
use native.Mathlib.Decide.{ℕ_discrete}
use high_concurrency_server.Common.{
  length-drop, ℕ, ◌+◌, ◌≤◌, ◌<◌, ◌≡◌, ◌≢◌, ◌∙◌, refl, sym, ap, true, false, Option, some, ◌++◌,
  Bytes, length, drop, ◌==◌, if◌then◌else◌, arith, inl, inr, Bool-cases,
}
use high_concurrency_server.Buffer.{Buffer, current_enable_read_space_size, max_size}
use high_concurrency_server.Buffer.Inv.{IsValid, contents, read_size, length-contents}
use high_concurrency_server.Buffer.Write.{write_as_buffer_and_add-Appends}
use high_concurrency_server.Buffer.Read.{move_read_position-Pops}
use high_concurrency_server.Channel.{fd_is_write}
use high_concurrency_server.Channel.Bits.{write_interest}
use high_concurrency_server.Connection.{
  Connection, is_disconnected, is_disconnecting, watch_write, release, send_in_loop, sent_some,
  hander_write,
}

-- What `SendInLoop` leaves: the bytes are queued, the interest in writing is set, and the descriptor
-- is in the poller, if it was there whenever that interest was set.
pub record Queued (c : Connection) (d : Bytes) (c' : Connection) : Type 0 where
  pub bytes : contents c'.outbuffer ≡ contents c.outbuffer ++ d
  pub valid : IsValid c'.outbuffer
  pub watching : fd_is_write c'.channel ≡ true
  pub seen : (fd_is_write c.channel ≡ true → c.watched ≡ true) → c'.watched ≡ true
  pub status : c'.status ≡ c.status

watch_write_lem :
    (c : Connection)
    → (fd_is_write (watch_write c).channel ≡ true)
      × ((watch_write c).outbuffer ≡ c.outbuffer)
      × ((watch_write c).status ≡ c.status)
      × ((fd_is_write c.channel ≡ true → c.watched ≡ true) → (watch_write c).watched ≡ true)
unfolding watch_write
watch_write_lem c = elim (Bool-cases (fd_is_write c.channel)) [
  | inl on ↦ rw on (on, refl, refl, λ h. h refl)
  | inr off ↦ rw off ((write_interest c.channel).0, refl, refl, λ h. refl)
]

-- On a connection that is not disconnected, `SendInLoop` puts the contents of its buffer behind the
-- bytes that wait to be sent, and afterwards the descriptor is watched for writing, as long as the
-- write index stays within `max_size()`.
pub send_in_loop-Queued :
    (c : Connection) (b : Buffer)
    → is_disconnected c.status ≡ false
    → IsValid c.outbuffer
    → IsValid b
    → c.outbuffer.write_index + length (contents b) ≤ max_size
    → (c' : Connection) × (send_in_loop c b ≡ some c') × Queued c (contents b) c'
unfolding send_in_loop
send_in_loop-Queued c b alive v vb h =
    let (out, e, a) = write_as_buffer_and_add-Appends c.outbuffer b v vb h in
    let w = watch_write_lem (record c { outbuffer = out }) in
    (
      watch_write (record c { outbuffer = out }),
      rw (alive, e),
      record {
        bytes = rw w.1 a.appended;
        valid = rw w.1 a.valid;
        watching = w.0;
        seen = w.3;
        status = w.2;
      },
    )

-- What `HanderWrite` leaves when `n` bytes were sent.
pub record Sent (c : Connection) (n : ℕ) (c' : Connection) : Type 0 where
  pub bytes : contents c'.outbuffer ≡ drop n (contents c.outbuffer)
  pub valid : IsValid c'.outbuffer
  pub status : c'.status ≡ c.status
  pub all : n ≡ length (contents c.outbuffer) → fd_is_write c'.channel ≡ false
  pub more :
      n < length (contents c.outbuffer)
      → (c'.channel ≡ c.channel) × (c'.pending ≡ c.pending) × (c'.watched ≡ c.watched)
  pub last :
      n ≡ length (contents c.outbuffer)
      → c'.pending ≡ c.pending + (if is_disconnecting c.status then 1 else 0)

sent_all :
    (c : Connection)
    → current_enable_read_space_size c.outbuffer ≡ 0
    → (fd_is_write (sent_some c).channel ≡ false)
      × ((sent_some c).pending ≡ c.pending + (if is_disconnecting c.status then 1 else 0))
      × ((sent_some c).outbuffer ≡ c.outbuffer)
      × ((sent_some c).status ≡ c.status)
unfolding sent_some release
sent_all c e = elim (Bool-cases (is_disconnecting c.status)) [
  | inl ending ↦ rw (e, ending) ((write_interest c.channel).1, refl, refl, refl)
  | inr going ↦ rw (e, going) ((write_interest c.channel).1, omega arith, refl, refl)
]

sent_part : (c : Connection) → current_enable_read_space_size c.outbuffer ≢ 0 → sent_some c ≡ c
unfolding sent_some
sent_part c h =
    let off : (current_enable_read_space_size c.outbuffer == 0) ≡ false = ground arith in rw off

-- After a send of `n` bytes, not more than waited, `HanderWrite` keeps exactly the bytes behind
-- them. When they were all, it stops watching for writing, and queues the release of a connection
-- that is shutting down, and only of one; otherwise it goes on watching as before.
pub hander_write-Sent :
    (on_msg : Connection → Option Connection) (c : Connection) (n : ℕ)
    → IsValid c.outbuffer
    → n ≤ length (contents c.outbuffer)
    → (c' : Connection) × (hander_write on_msg c (some n) ≡ some c') × Sent c n c'
unfolding hander_write
hander_write-Sent on_msg c n v h =
    let (b, e, p) = move_read_position-Pops c.outbuffer n v h in
    let size = read_size b p.valid ∙ sym (length-contents b p.valid) in
    let left = ap length p.rest ∙ length-drop n (contents c.outbuffer) in
    let c1 = record c { outbuffer = b } in
    elim (ℕ_discrete n (length (contents c.outbuffer))) [
      | yes same ↦
          let a = sent_all c1 (omega (arith, size, left)) in
          (
            sent_some c1,
            rw e,
            record {
              bytes = ap contents a.2 ∙ p.rest;
              valid = rw a.2 p.valid;
              status = a.3;
              all = λ q. a.0;
              more = λ q. absurd (omega arith);
              last = λ q. a.1;
            },
          )
      | no apart ↦
          let a = sent_part c1 (λ q. absurd (omega (arith, size, left))) in
          (
            sent_some c1,
            rw e,
            rw a (record {
              bytes = p.rest;
              valid = p.valid;
              status = refl;
              all = λ q. absurd (apart q);
              more = λ q. (refl, refl, refl);
              last = λ q. absurd (apart q);
            }),
          )
    ]
