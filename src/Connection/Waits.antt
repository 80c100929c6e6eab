-- ===== src/Connection/Waits.antt =====
-- The bytes that wait in the output buffer of a connection, under each of its functions.
use high_concurrency_server.Common.{
  ℕ, ◌+◌, ◌≤◌, ◌<◌, ◌≡◌, ◌≢◌, ◌∙◌, refl, sym, ap, Bool, true, false, Option, none, some, length,
  ltb, ◌==◌, if◌then◌else◌, arith, inl, inr, Bool-cases, Option-cases, length-drop,
}
use high_concurrency_server.Buffer
use high_concurrency_server.Buffer.{Buffer, write_and_add, current_enable_read_space_size, max_size}
use high_concurrency_server.Buffer.Inv.{IsValid, init-IsValid, contents, length-contents}
use high_concurrency_server.Channel
use high_concurrency_server.Channel.{fd_is_write}
use high_concurrency_server.Channel.Bits.{write_interest, read_interest}
use mathlib.Core.Path.{subst}
use native.Mathlib.Decide.{ℕ_discrete}
use high_concurrency_server.Wheel.{has_timer, flush_time_task, set_time_task}
use high_concurrency_server.Connection.Life.{release_inloop-Released}
use high_concurrency_server.Connection.Output.{Sent, hander_write-Sent, send_in_loop-Queued}
use high_concurrency_server.Connection.{
  is_connecting, notify, ConnEvent, Connection, ConnStatus, is_disconnected, watch_write, release,
  send_in_loop, hander_write, is_connected, established_in_loop, hander_event, finish,
  enable_timeout_del_in_loop, disable_timeout_del_in_loop, release_inloop,
}

-- Bytes that wait to be sent are waited for, unless the connection has ended: the output buffer is
-- valid, if it is not empty, the interest in writing is set, and with this interest the descriptor is
-- in the poller.
pub record Waits (c : Connection) : Type 0 where
  pub valid : IsValid c.outbuffer
  pub waits :
      0 < length (contents c.outbuffer)
      → is_disconnected c.status ≡ false
      → fd_is_write c.channel ≡ true
  pub seen : is_disconnected c.status ≡ false → fd_is_write c.channel ≡ true → c.watched ≡ true
  pub never : c.status ≢ ConnStatus.connected

pub is_waiting :
    {c c' : Connection}
    → Waits c
    → c'.outbuffer ≡ c.outbuffer
    → c'.channel ≡ c.channel
    → c'.status ≡ c.status
    → c'.watched ≡ c.watched
    → Waits c'
is_waiting v o ch st w = record {
  valid = rw o v.valid;
  waits = λ l a.
      rw ch (
        v.waits (rw (ap (λ b. length (contents b)) (sym o)) l)
          (rw (ap is_disconnected (sym st)) a));
  seen = λ a on. w ∙ v.seen (ap is_disconnected (sym st) ∙ a) (ap fd_is_write (sym ch) ∙ on);
  never = λ e. v.never (sym st ∙ e);
}

pub carried : {c d : Connection} → Waits d → some d ≡ some c → Waits c
carried v e = subst Waits (cc) v

pub watch_write-Waits : (c : Connection) → Waits c → Waits (watch_write c)
unfolding watch_write
watch_write-Waits c v = elim (Bool-cases (fd_is_write c.channel)) [
  | inl on ↦ rw on v
  | inr off ↦ rw off (record {
    valid = v.valid;
    waits = λ l a. (write_interest c.channel).0;
    seen = λ a on. refl;
    never = v.never;
  })
]

-- The end of `ShutDownInLoop`.
pub release_if-Waits : (b : Bool) (c : Connection) → Waits c → Waits (if b then release c else c)
unfolding release
release_if-Waits true c v = is_waiting v refl refl refl refl
release_if-Waits false c v = v

-- A step that does not return leaves nothing to show.
pub failed : {c : Connection} → none ≡ some c → Waits c
failed e = cc

pub finish-Waits : {c : Connection} → Waits c → Waits (finish c)
unfolding finish
finish-Waits {c} v = elim (Bool-cases (ltb 0 (current_enable_read_space_size c.outbuffer))) [
  | inl more ↦ rw more (
      release_if-Waits (current_enable_read_space_size (watch_write c).outbuffer == 0)
        (watch_write c) (watch_write-Waits c v))
  | inr no_more ↦
      rw no_more (release_if-Waits (current_enable_read_space_size c.outbuffer == 0) c v)
]

pub established-Waits : (c : Connection) → Waits c → Waits (established_in_loop c)
unfolding established_in_loop
established-Waits c v = elim (Bool-cases (is_connecting c.status)) [
  | inl new ↦ rw new (record {
    valid = v.valid;
    waits = λ l a. (read_interest c.channel).2 ∙ v.waits l a;
    seen = λ a on. refl;
    never = v.never;
  })
  | inr old ↦ rw old v
]

pub write-Waits :
    (on_msg : Connection → Option Connection) (c c' : Connection) (n : ℕ)
    → Waits c
    → n ≤ length (contents c.outbuffer)
    → hander_write on_msg c (some n) ≡ some c'
    → Waits c'
write-Waits on_msg c c' n v h e =
    let (d, done, s) = hander_write-Sent on_msg c n v.valid h in carried (kept d s) (sym done ∙ e)
  where
    kept : (d : Connection) → Sent c n d → Waits d
    kept d s =
        let left = ap length s.bytes ∙ length-drop n (contents c.outbuffer) in
        record {
          valid = s.valid;
          waits = λ l a.
              ap fd_is_write (s.more (omega (arith, left))).0
              ∙ v.waits (omega (arith, left)) (ap is_disconnected (sym s.status) ∙ a);
          seen = λ a on. elim (ℕ_discrete n (length (contents c.outbuffer))) [
            | yes same ↦ absurd (let clash = sym (s.all same) ∙ on in cc)
            | no ne ↦
                let m = s.more (omega arith) in
                m.2 ∙ v.seen (ap is_disconnected (sym s.status) ∙ a) (ap fd_is_write (sym m.0) ∙ on)
          ];
          never = λ q. v.never (sym s.status ∙ q);
        }

pub event-Waits : (c c' : Connection) → Waits c → hander_event c ≡ some c' → Waits c'
unfolding hander_event
event-Waits c c' v e =
    elim (Option-cases
      (if c.is_enable_time_del then flush_time_task c.wheel c.timer_id else some c.wheel)) [
        | inl fails ↦ failed (rw fails at e)
        | inr (w, done) ↦
            carried {d = notify ConnEvent.event (record c { wheel = w })}
              (is_waiting v refl refl refl refl) (rw done at e)
      ]

pub send-Waits :
    (c c' : Connection) (b : Buffer)
    → Waits c
    → IsValid b
    → c.outbuffer.write_index + length (contents b) ≤ max_size
    → send_in_loop c b ≡ some c'
    → Waits c'
send-Waits c c' b v w h e = elim (Bool-cases (is_disconnected c.status)) [
  | inl gone ↦ carried v (unfold send_in_loop in rw gone at e)
  | inr alive ↦
      let (d, done, q) = send_in_loop-Queued c b alive v.valid w h in
      carried
        (record {
          valid = q.valid;
          waits = λ l a. q.watching;
          seen = λ a on. q.seen (v.seen alive);
          never = λ x. v.never (sym q.status ∙ x);
        })
        (sym done ∙ e)
]

pub enable-Waits :
    (c c' : Connection) (sec : ℕ) → Waits c → enable_timeout_del_in_loop c sec ≡ some c' → Waits c'
unfolding enable_timeout_del_in_loop
enable-Waits c c' sec v e =
    elim (Option-cases
      (if has_timer c.wheel c.timer_id then flush_time_task c.wheel c.timer_id else some c.wheel)) [
        | inl fails ↦ failed (rw fails at e)
        | inr (w, done) ↦ elim (Option-cases (set_time_task w c.timer_id sec c.conn_id)) [
          | inl fails ↦ failed (rw (done, fails) at e)
          | inr (w', set) ↦
              carried {d = record c { is_enable_time_del = true; wheel = w' }}
                (is_waiting v refl refl refl refl) (rw (done, set) at e)
        ]
      ]

pub disable-Waits : (c : Connection) → Waits c → Waits (disable_timeout_del_in_loop c)
unfolding disable_timeout_del_in_loop
disable-Waits c v = elim (Bool-cases (has_timer c.wheel c.timer_id)) [
  | inl timed ↦ rw timed (is_waiting v refl refl refl refl)
  | inr untimed ↦ rw untimed (is_waiting v refl refl refl refl)
]

pub release_inloop-Waits :
    (c : Connection) (n : ℕ) → Waits c → Waits (release_inloop (record c { pending = n }))
release_inloop-Waits c n v =
    let r = release_inloop-Released (record c { pending = n }) in
    record {
      valid = rw r.buffers.1 v.valid;
      waits = λ l a. absurd (
          let q : is_disconnected ConnStatus.disconnected ≡ false =
            ap is_disconnected (sym r.status) ∙ a in
          cc);
      seen = λ a on. absurd (
          let q : is_disconnected ConnStatus.disconnected ≡ false =
            ap is_disconnected (sym r.status) ∙ a in
          cc);
      never = λ q. let x : ConnStatus.disconnected ≡ ConnStatus.connected = sym r.status ∙ q in cc;
    }

pub nothing_watched : (fd : ℕ) → fd_is_write {F = ℕ} (Channel.init fd) ≡ false
unfolding fd_is_write Channel.init
nothing_watched fd = refl

pub nothing_waits : length (contents Buffer.init) ≡ 0
unfolding Buffer.init
nothing_waits = length-contents Buffer.init init-IsValid

pub not_connected : (c : Connection) → c.status ≢ ConnStatus.connected → is_connected c ≡ false
unfolding is_connected
not_connected c h = ground arith
