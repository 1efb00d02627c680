-- ===== src/Service/Instance/Laws.antt =====
-- Closing an instance.
use arupa.Base.{◌≡◌, inl, inr, refl, true, Option}
use arupa.Base.{GoString, string_eq, Bool-cases}
use arupa.Base.{Option-cases}
use arupa.Service.Instance.{Instance, CloseError, close, close_body}

close_body-done :
    (f : GoString → Option CloseError) (i : Instance) → (close_body f i).close_done ≡ true
close_body-done f i = elim (Option-cases i.close_backend) [
  | inl e ↦ rw e refl
  | inr (x, e) ↦ rw e refl
]

-- Whatever removing a directory gives later, a second close changes nothing of the instance, its
-- backend not being closed again, and returns the first error again.
pub close-close :
    (f g : GoString → Option CloseError) (i : Instance) → close g (close f i).0 ≡ close f i
unfolding close
close-close f g i = elim (Bool-cases i.close_done) [
  | inl t ↦ rw (t, close) refl
  | inr n ↦ rw (n, close, close_body-done f i) refl
]
