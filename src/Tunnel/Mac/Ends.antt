-- ===== src/Tunnel/Mac/Ends.antt =====
-- What becomes of the descriptor of the control socket, and of the four bytes before a package.
use sharpvpn.Base.{
  ℕ, zero, suc, ◌+◌, ◌<◌, ◌≡◌, pos, List, [], ◌∷◌, length, take, min, Bool, false, arith,
}
use sharpvpn.Tunnel.Mac.{
  Call, opened, get_info, connect, close, plain_socket, command, Kernel, Run, attach, init,
  shutdown, set_own_ip, bytes, read, write, frame_of,
}

-- The descriptors that the kernel gave for the control, and those that were closed.
abbrev pub opens : List Call → List ℕ
opens [] = []
opens (opened fd ∷ calls) = fd ∷ opens calls
opens (get_info fd ∷ calls) = opens calls
opens (connect fd id unit ∷ calls) = opens calls
opens (close fd ∷ calls) = opens calls
opens (plain_socket ∷ calls) = opens calls
opens (command s ∷ calls) = opens calls

abbrev pub closes : List Call → List ℕ
closes [] = []
closes (opened fd ∷ calls) = closes calls
closes (get_info fd ∷ calls) = closes calls
closes (connect fd id unit ∷ calls) = closes calls
closes (close fd ∷ calls) = fd ∷ closes calls
closes (plain_socket ∷ calls) = closes calls
closes (command s ∷ calls) = closes calls

-- After `init` of a tunnel that does not run, whatever it returns and whichever calls fail, and
-- `shutdown`, the descriptors of the control that were opened meanwhile have each been closed once.
pub closes-shutdown-init :
    (k : Kernel) (setip : Bool) (r : Run)
    → r.tunnel.running ≡ false
    → r.calls ≡ []
    → closes (shutdown (init k setip r).1).calls ≡ opens (shutdown (init k setip r).1).calls
unfolding init attach shutdown set_own_ip
closes-shutdown-init k setip r h e = ground (arith, h, e)

length-take : (n : ℕ) (xs : List ℕ) → length (take n xs) ≡ min n (length xs)
length-take zero xs = omega arith
length-take (suc n) [] = omega arith
length-take (suc n) (x ∷ xs) = omega (arith, length-take n xs)

-- Four bytes before a package are taken off again.
read_cut :
    (a b c d : ℕ) (buf : List ℕ) (size : ℕ)
    → read (bytes (take (4 + size) (a ∷ b ∷ c ∷ d ∷ buf)))
      ≡ (pos (min size (length buf)), take size buf)
unfolding read
read_cut a b c d buf size = rw four (ground (arith, length-take size buf))
  where
    four : 4 + size ≡ suc (suc (suc (suc size)))
    four = omega arith

write_all : (n : ℕ) → 0 < n → write (pos (suc (suc (suc (suc n))))) ≡ pos n
unfolding write
write_all n h = ground (arith, h)

-- A frame that `write` made, of a package that is not empty, comes out of `read` with a buffer of
-- some size as the package, cut to that size; and a `writev` that takes the whole frame makes `write`
-- return the length of the package.
pub read-frame_of :
    (k : Kernel) (buf : List ℕ) (size : ℕ)
    → 0 < length buf
    → (read (bytes (take (4 + size) (frame_of k buf)))
        ≡ (pos (min size (length buf)), take size buf))
      × (write (pos (length (frame_of k buf))) ≡ pos (length buf))
read-frame_of k buf size h = (read_cut _ _ _ _ buf size, write_all (length buf) h)
