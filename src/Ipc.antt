-- ===== src/Ipc.antt =====
-- include/emilua/actor.hpp: the message that actors of two processes exchange over a
-- sequential-packet socket, and the reading of its strings (src/ipc_actor.cpp).
pub mod Kind
pub mod Values
pub mod Queue
pub mod Push
pub mod Send
pub mod Written
pub mod Finished
pub mod Strings
pub mod RoundTrip
pub mod Tables
pub mod Delivery
pub mod Content
pub mod Agreement
pub mod Readers
pub mod Prefix
pub mod Descriptors
pub mod Leaks
pub mod Locks
pub mod Accepts
pub mod Inbox
use Prim.Native.Nat.{◌/◌, bit_and, bit_or}
use emilua.Common.{
  ℕ, ◌+◌, ◌*◌, ◌-◌, Bool, not, ◌&&◌, List, ◌++◌, leb, ◌==◌, length, get_or, take, drop,
}

abbrev pub exponent_mask : ℕ
exponent_mask = 0x7FF0_0000_0000_0000

abbrev pub mantissa_mask : ℕ
mantissa_mask = 0x000F_FFFF_FFFF_FFFF

abbrev pub qnan_bit : ℕ
qnan_bit = 0x0008_0000_0000_0000

-- The word that stands for a value of a kind.
abbrev pub tag : ℕ → ℕ
tag kind = bit_or exponent_mask kind

unfoldable pub is_snan : ℕ → Bool
is_snan as_i =
    (bit_and as_i exponent_mask == exponent_mask)
    && not (bit_and as_i mantissa_mask == 0)
    && (bit_and as_i qnan_bit == 0)

-- A member is its 64 bits. The number of members is set when the program is built; it is the
-- length of the list.
pub record Message : Type 0 where
  pub members : List ℕ
  pub strbuf : List ℕ

-- `sizeof(message.members)`.
abbrev pub sizeof_members : Message → ℕ
sizeof_members message = 8 * length message.members

abbrev pub sizeof_message : Message → ℕ
sizeof_message message = sizeof_members message + length message.strbuf

-- A `std::string_view` into `strbuf`.
pub record StringView : Type 0 where
  pub start : ℕ
  pub size : ℕ

module _ (message : Message) where
  abbrev pub chars : StringView → List ℕ
  chars v = take v.size (drop v.start message.strbuf)

  -- The string whose size byte is at `strit`.
  abbrev pub nextstr : ℕ → StringView
  nextstr strit = record { start = strit + 1; size = get_or message.strbuf strit 0 }

  abbrev pub boundsvalid : ℕ → StringView → Bool
  boundsvalid nread v = leb (sizeof_members message + v.start + v.size) nread

-- What `recvmsg` leaves in the buffer `old` when `size` bytes of `sent` arrive.
abbrev pub overwrite : ℕ → Message → Message → Message
overwrite size sent old = record {
  members = take (size / 8) sent.members ++ drop (size / 8) old.members;
  strbuf =
      take (size - sizeof_members sent) sent.strbuf ++ drop (size - sizeof_members sent) old.strbuf;
}
