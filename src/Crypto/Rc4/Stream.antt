-- ===== src/Crypto/Rc4/Stream.antt =====
-- `Rc4State.crypt` of src/nagus/crypto.py as a stream cipher.
use nagus.Prelude.{Bytes, suc, length, ◌≡◌, refl, ap, [], ◌∷◌, ◌++◌}
use nagus.Prelude.Bits.{bit_xor_twice}
use nagus.Crypto.Rc4.{Rc4State, next_byte, crypt}

-- Encrypting the encrypted data from the same state gives the data back, and both runs end in
-- the same state.
pub crypt_twice :
    (s : Rc4State) (data' : Bytes) → crypt s (crypt s data').1 ≡ ((crypt s data').0, data')
unfolding crypt
crypt_twice s [] = refl
crypt_twice s (byte ∷ data') =
    let (s', k) = next_byte s in rw (crypt_twice s' data', bit_xor_twice byte k)

-- Encrypting two pieces of data, the second from the state that the first left, gives the same
-- bytes and the same state as encrypting them in one call.
pub crypt-append :
    (s : Rc4State) (a b : Bytes)
    → crypt s (a ++ b) ≡ ((crypt (crypt s a).0 b).0, (crypt s a).1 ++ (crypt (crypt s a).0 b).1)
unfolding crypt
crypt-append s [] b = refl
crypt-append s (byte ∷ a) b = let (s', k) = next_byte s in rw (crypt-append s' a b)

pub length-crypt : (s : Rc4State) (data' : Bytes) → length (crypt s data').1 ≡ length data'
unfolding crypt
length-crypt s [] = refl
length-crypt s (byte ∷ data') = ap suc (length-crypt (next_byte s).0 data')
