-- ===== src/Tests/Ssh.antt =====
-- The SSH parts at concrete inputs.
use unroxy.Base.{
  false, take, panic, ℕ, true, none, some, ◌≡◌, refl, arith, List, [], ◌∷◌, ◌++◌, ◌+◌, ok,
}
use unroxy.Base.Text.{Text, codes}
use unroxy.Ssh.Account.{Account}
use unroxy.Ssh.Tunnel.{
  Session, Inner, live, default_config, start_with, pick_account, begin, connected, released,
}
use unroxy.Ssh.Tunnel.Rotation.{IsPick, pick_account-IsPick}
use unroxy.Ssh.Tunnel.World.{
  World, waiting, counted, Reach, here, next, looked, added, begun, opened, finished, new_world,
}
use unroxy.Ssh.Tunnel.Bounded.{IsBounded, Reach-IsBounded}
use unroxy.Ssh.Ossh.Write.{ident, kex, done, Writer, process_write}
use unroxy.Ssh.Ossh.Write.Sends.{Sends, process_write-Sends, process_write-short}
use unroxy.Ssh.Socks.{handle, hello, success}
use unroxy.Ssh.Socks.Dial.{client_bytes, handle-connect}
use unroxy.Ssh.Ossh.Read
use unroxy.Ssh.Ossh.Read.{Reader, read_rounds, process_read}
use unroxy.Ssh.Ossh.Read.Enough.{process_read-enough}
use unroxy.Ssh.Ossh.Published.{rc4, apply-rc4}
use unroxy.Ssh.Ossh.{new, apply}

abbrev account : Text → Text → Account
account ip region = record {
  ip = ip;
  region = region;
  ssh_port = 22;
  ossh_port = 80;
  ssh_username = [];
  ssh_password = [];
  ssh_host_key = [];
  ssh_obfuscated_key = [];
}

abbrev accounts : List Account
accounts =
    account (codes "1") (codes "DE")
    ∷ (account (codes "2") [] ∷ (account (codes "3") (codes "DE") ∷ []))

abbrev as_text : List ℕ → Text
as_text bytes = bytes

handle-connect_example :
    handle as_text as_text
      (some tt)
      (λ (s : Unit {0}) host port. true)
      (client_bytes (0 ∷ []) (codes "a.de") 443 [])
    ≡ (hello ++ success, ok (some (codes "a.de", 443)))
handle-connect_example =
    handle-connect as_text as_text (some tt) (λ (s : Unit {0}) host port. true) (0 ∷ [])
      (codes "a.de") [] 443 (omega arith)

apply-rc4_example :
    ((apply (new (1 ∷ (2 ∷ []))) (9 ∷ (8 ∷ []))).0 ≡ rc4 (1 ∷ (2 ∷ [])) (9 ∷ (8 ∷ [])))
    × ((apply (new (1 ∷ (2 ∷ []))) (rc4 (1 ∷ (2 ∷ [])) (9 ∷ (8 ∷ [])))).0 ≡ 9 ∷ (8 ∷ []))
apply-rc4_example = apply-rc4 (1 ∷ (2 ∷ [])) (9 ∷ (8 ∷ []))

-- Accounts of which the second may be used.
abbrev some_inner : Inner
some_inner = record (start_with default_config 3 1080) {
  account_not_before = 900 ∷ (100 ∷ (800 ∷ []));
  rotate = 5;
}

pick_account-IsPick_example :
    IsPick some_inner.account_not_before 500 (pick_account 500 some_inner).0
pick_account-IsPick_example = pick_account-IsPick 500 some_inner (omega arith) (omega arith)

-- A pool of the size 1: a session is begun, and opened between the two looks of the next round, so that
-- a second one is begun.
abbrev session : Session
session = record { id = 1; ip = []; protocol = []; closed = false }

abbrev world_begun : World
world_begun = record (new_world default_config 1 1080) {
  inner = (begin true 500 0 0 (start_with default_config 1 1080)).1;
  running = 1;
}

abbrev world_opened : World
world_opened = record world_begun {
  inner = released (connected 0 session world_begun.inner);
  look = counted 0;
  running = 0;
}

abbrev world_full : World
world_full = record world_opened {
  inner = (begin true 900 0 0 world_opened.inner).1;
  look = waiting;
  running = 1;
}

full_there : Reach (new_world default_config 1 1080) world_full
unfolding begin start_with connected released
full_there =
    let begun_there =
      next (next (next here (looked refl)) (added 0 refl refl)) (begun true 500 0 0 refl refl) in
    let opened_there =
      next (next (next begun_there (looked refl)) (opened 0 session (omega arith) refl))
        (finished (omega arith) refl) in
    next (next opened_there (added 0 refl refl)) (begun true 900 0 0 refl refl)

full_test : live world_full.inner + world_full.running ≡ 2
unfolding begin start_with connected released
full_test = refl

Reach-IsBounded_example : IsBounded 1 world_full
Reach-IsBounded_example = Reach-IsBounded default_config 1 1080 world_full (omega arith) full_there

-- The line of a client, a packet with the new keys, and three bytes behind it.
abbrev writer : Writer
writer = record {
  c2s = new (1 ∷ (2 ∷ []));
  wstate = ident;
  wbuf = codes "SSH-2.0\r\n" ++ (0 ∷ (0 ∷ (0 ∷ (2 ∷ (0 ∷ (21 ∷ (7 ∷ (8 ∷ (9 ∷ [])))))))));
  wout = [];
}

abbrev written : Writer
written = record {
  c2s = (apply writer.c2s (take 15 writer.wbuf)).1;
  wstate = done;
  wbuf = [];
  wout = (apply writer.c2s (take 15 writer.wbuf)).0 ++ (7 ∷ (8 ∷ (9 ∷ [])));
}

process_write-Sends_example : Sends writer written
unfolding process_write apply unroxy.Base.Bytes.from_be
process_write-Sends_example = process_write-Sends writer written refl

abbrev short_writer : Writer
short_writer = record writer { wstate = kex; wbuf = 0 ∷ (0 ∷ (0 ∷ (1 ∷ (4 ∷ [])))) }

process_write-short_example : process_write short_writer ≡ panic
process_write-short_example = process_write-short short_writer 4 [] refl refl

-- A line that is still open, a byte of the stream, and no prefix.
abbrev some_reader : Reader
some_reader = record {
  s2c = new (1 ∷ (2 ∷ []));
  rstate = Read.ident;
  rin = 1 ∷ [];
  rbuf = [];
  rline = [];
  kex_prefix = none;
}

process_read-enough_example : process_read some_reader ≡ read_rounds 4 some_reader
process_read-enough_example = process_read-enough 4 some_reader (omega arith)
