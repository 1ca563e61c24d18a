-- ===== src/Client/Closing.antt =====
-- dccex/client/client.go: what a shutdown changes, and that it happens once.
use go_dcc_ex_driver.Base.{◌≡◌, refl, Bool, true, false, Option, Error}
use go_dcc_ex_driver.Client.{Conn, Client, close_unless, close_with_cause}

-- A shutdown leaves the traffic alone.
pub record Kept (c d : Client) : Type 0 where
  pub shut : d.done ≡ true
  pub same_sending : d.sending ≡ c.sending
  pub same_writer : d.writer ≡ c.writer
  pub same_reader : d.reader ≡ c.reader
  pub same_begun : d.begun ≡ c.begun
  pub same_sent : d.sent ≡ c.sent
  pub same_incoming : d.incoming ≡ c.incoming
  pub same_failure : d.failure ≡ c.failure
  pub same_events : d.events ≡ c.events

close_unless-Kept :
    (b : Bool) (conn : Conn) (cause : Option Error) (c : Client)
    → c.done ≡ b
    → Kept c (close_unless b conn cause c).0
unfolding close_unless
close_unless-Kept true conn cause c h = record {
  shut = h;
  same_sending = refl;
  same_writer = refl;
  same_reader = refl;
  same_begun = refl;
  same_sent = refl;
  same_incoming = refl;
  same_failure = refl;
  same_events = refl;
}
close_unless-Kept false conn cause c h = record {
  shut = refl;
  same_sending = refl;
  same_writer = refl;
  same_reader = refl;
  same_begun = refl;
  same_sent = refl;
  same_incoming = refl;
  same_failure = refl;
  same_events = refl;
}

pub close_with_cause-Kept :
    (conn : Conn) (cause : Option Error) (c : Client) → Kept c (close_with_cause conn cause c).0
unfolding close_with_cause
close_with_cause-Kept conn cause c = close_unless-Kept c.done conn cause c refl
