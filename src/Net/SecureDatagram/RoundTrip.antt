-- ===== src/Net/SecureDatagram/RoundTrip.antt =====
-- ts/net/secure-datagram.ts: what was sealed opens.
use toki.Net.Cipher.{Bytes, Gcm}
use toki.Net.SecureDatagram.{Outcome, bad_key, dropped, given, open_datagram}

-- What a receiver makes of what the sender gives to the wire.
pub received : Gcm → Bytes → Outcome → Outcome
received g key (given wire) = open_datagram g key wire
received g key bad_key = bad_key
received g key dropped = dropped
