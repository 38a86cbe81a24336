-- ===== src/Tarpit.antt =====
-- The TARPIT target (extensions/xt_TARPIT.c): the replies that hold a TCP connection.
pub mod Reply
pub mod Modes
mod Tests
use xtables_addons.Common.{
  ℕ, ◌+◌, ◌-◌, ◌%◌, ◌^◌, Bool, true, false, not, ◌&&◌, ◌||◌, Option, some, none, ltb, ◌==◌,
  if◌then◌else◌, bit_and,
}
use xtables_addons.Common.Words.{ntohl, u16_mod, u32_mod}

-- enum xt_tarpit_target_variant; `other_mode` is any other value of the byte, which the code does not
-- refuse.
pub data Variant : Type 0 where
  xttarpit_tarpit_mode xttarpit_honeypot_mode xttarpit_reset_mode other_mode : Variant

-- The fields of struct tcphdr that the code reads or writes; numbers are as they stand in the packet.
pub record TcpHdr : Type 0 where
  pub source : ℕ
  pub dest : ℕ
  pub seq : ℕ
  pub ack_seq : ℕ
  pub window : ℕ
  pub doff : ℕ
  pub urg_ptr : ℕ
  pub fin : Bool
  pub syn : Bool
  pub rst : Bool
  pub psh : Bool
  pub ack : Bool

-- The two words that `prandom_u32` returns to one call.
pub record Random : Type 0 where
  pub window : ℕ
  pub seq : ℕ

abbrev pub bit_of : Bool → ℕ
bit_of true = 1
bit_of false = 0

-- `htonl(ntohl(x) + n)`
abbrev pub add_net : ℕ → ℕ → ℕ
add_net x n = ntohl ((ntohl x + n) % u32_mod)

-- `htons(5)`
abbrev pub window_5 : ℕ
window_5 = 0x0500

-- The header of the reply, `none` where there is to be none.
unfoldable pub xttarpit_tarpit : TcpHdr → TcpHdr → Option TcpHdr
xttarpit_tarpit tcph oth =
    if oth.rst || oth.fin || (not oth.syn && not oth.ack)
    then none
    else some (
        let begun = record tcph {
          seq = if oth.ack then oth.ack_seq else 0;
          window = if oth.syn && not oth.ack then window_5 else 0;
        } in
        if oth.syn && oth.ack
        then record begun { rst = true; ack_seq = 0 }
        else record begun { syn = oth.syn; ack = true; ack_seq = add_net oth.seq (bit_of oth.syn) })

-- `oth->window & ((prandom_u32() & 0x1f) - 0xf)`
abbrev pub random_window : TcpHdr → Random → ℕ
random_window oth random =
    bit_and oth.window ((bit_and random.window 0x1f + u32_mod - 0xf) % u32_mod)

-- The four parts of `xttarpit_honeypot`, each of which looks at the packet alone.
abbrev pub scanner_reset : TcpHdr → TcpHdr → TcpHdr
scanner_reset oth tcph =
    if oth.syn && oth.ack
    then record tcph {
      window = 0;
      ack = false;
      psh = true;
      ack_seq = 0xdeadbeef;
      seq = oth.ack_seq;
      rst = true;
    }
    else tcph

abbrev pub answer_syn : Random → TcpHdr → TcpHdr → TcpHdr
answer_syn random oth tcph =
    if oth.syn && not oth.ack
    then record tcph {
      syn = true;
      ack = true;
      window = random_window oth random;
      seq = ntohl (bit_and random.seq (u32_mod - 1 - oth.seq));
      ack_seq = add_net oth.seq (bit_of oth.syn);
    }
    else tcph

abbrev pub answer_ack : Random → ℕ → TcpHdr → TcpHdr → TcpHdr
answer_ack random payload oth tcph =
    if oth.ack && not (oth.fin || oth.syn)
    then record tcph {
      syn = false;
      ack = true;
      window = random_window oth random;
      ack_seq = if ltb 100 payload then add_net oth.seq payload else oth.seq;
      seq = oth.ack_seq;
    }
    else tcph

abbrev pub answer_fin : TcpHdr → TcpHdr → TcpHdr
answer_fin oth tcph =
    if oth.fin
    then record tcph {
      window = 0;
      seq = oth.ack_seq;
      ack_seq = oth.ack_seq;
      fin = false;
      ack = false;
      rst = true;
    }
    else tcph

unfoldable pub xttarpit_honeypot : Random → TcpHdr → TcpHdr → ℕ → Option TcpHdr
xttarpit_honeypot random tcph oth payload =
    if oth.rst || (oth.seq == 0xdeadbeef)
    then none
    else some (
        answer_fin oth
          (answer_ack random payload oth (answer_syn random oth (scanner_reset oth tcph))))

unfoldable pub xttarpit_reset : TcpHdr → TcpHdr → TcpHdr
xttarpit_reset tcph oth = record tcph {
  window = 0;
  ack = false;
  syn = false;
  rst = true;
  seq = oth.ack_seq;
  ack_seq = oth.seq;
}

unfoldable pub tarpit_generic : Random → TcpHdr → TcpHdr → ℕ → Variant → Option TcpHdr
tarpit_generic random tcph oth payload xttarpit_tarpit_mode = xttarpit_tarpit tcph oth
tarpit_generic random tcph oth payload xttarpit_honeypot_mode =
    xttarpit_honeypot random tcph oth payload
tarpit_generic random tcph oth payload xttarpit_reset_mode = some (xttarpit_reset tcph oth)
tarpit_generic random tcph oth payload other_mode = some tcph
