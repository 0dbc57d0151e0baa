-- ===== src/Interrupt/Vectors.antt =====
-- interrupt.c: the exception vectors, which report on the console, and `send_irq`.
use rpi2_baremetal.Common.{
  ℕ, ◌+◌, ◌*◌, List, [], ◌∷◌, ◌++◌, bit_and, Bool, true, false, ◌==◌, if◌then◌else◌,
}
use rpi2_baremetal.Machine.{Machine, Hw, M, pure, ◌>>=◌, ◌>>◌, io_write, get_prid, mask_irq}
use rpi2_baremetal.Uart.{codes, uart_puts, hexstring, register_value_puts}
use rpi2_baremetal.Uart.Prints.{
  Drains, IsQuiet, Prints, Prints-pure, Prints-seq, with_bus, wires, wires-append, hexstring_text,
  console-Prints,
}

abbrev pub dabt_ext_mask : ℕ
dabt_ext_mask = 0x1000

abbrev pub dabt_wnr_mask : ℕ
dabt_wnr_mask = 0x8000

abbrev pub dabt_fs_mask : ℕ
dabt_fs_mask = 0x40f

-- `_disint` and `_enaint`; the mask of the fast interrupts is not modelled.
unfoldable pub disint : M (Unit {0})
disint = mask_irq true

unfoldable pub enaint : M (Unit {0})
enaint = mask_irq false

unfoldable pub send_irq : ℕ → M (Unit {0})
send_irq prid = io_write (0x4000_008c + prid * 0x10) 0x18

-- It is empty.
unfoldable pub fast_interrupt_vector : M (Unit {0})
fast_interrupt_vector = pure tt

module _ (hw : Hw) where
  unfoldable pub reset_vector : M (Unit {0})
  reset_vector = do disint; uart_puts hw (codes "Reset Vector ABORT!!\n"); enaint

  unfoldable pub undefined_instruction_vector : M (Unit {0})
  undefined_instruction_vector = do disint; uart_puts hw (codes "Undefine Instruction!!\n"); enaint

  unfoldable pub prefetch_abort_vector : M (Unit {0})
  prefetch_abort_vector = do disint; uart_puts hw (codes "PREFETCH ABORT\n"); enaint

  -- `stack` is what `_get_stack_pointer` gives, which is printed.
  unfoldable pub software_interrupt_handler : ℕ → ℕ → M ℕ
  software_interrupt_handler stack number = do
    register_value_puts hw (codes "SWI: ") number
    prid ← get_prid
    register_value_puts hw (codes "SWI CORE: ") prid
    register_value_puts hw (codes "StackPointer: ") stack
    get_prid

  -- The ladder on the fault status.
  unfoldable pub fault_status : ℕ → M (Unit {0})
  fault_status fs =
      if fs == 0x1
      then uart_puts hw (codes " ::alignment fault")
      else if fs == 0x4
      then uart_puts hw (codes " ::instruction cache maitenance fault")
      else if fs == 0xc
      then uart_puts hw (codes " ::translation table walk sync external abort L1")
      else if fs == 0xe
      then uart_puts hw (codes " ::translation table walk sync external abort L2")
      else if fs == 0x40c
      then uart_puts hw (codes " ::translation table walk sync pality error L1")
      else if fs == 0x40e
      then uart_puts hw (codes " ::translation table walk sync pality error L2")
      else if fs == 0x5
      then uart_puts hw (codes " ::translation fault(MMU Fault) in section")
      else if fs == 0x7
      then uart_puts hw (codes " ::translation fault(MMU Fault) in page")
      else if fs == 0x3
      then uart_puts hw (codes " ::access flag fault(MMU Fault) in section")
      else if fs == 0x6
      then uart_puts hw (codes " ::access flag fault(MMU Fault) in page")
      else if fs == 0x9
      then uart_puts hw (codes " ::domain fault(MMU Fault) in section")
      else if fs == 0xb
      then uart_puts hw (codes " ::domain fault(MMU Fault) in page")
      else if fs == 0xd
      then uart_puts hw (codes " ::access policy fault(MMU Fault) in section")
      else if fs == 0xf
      then uart_puts hw (codes " ::access policy fault(MMU Fault) in page")
      else pure tt

  unfoldable pub data_abort_vector : ℕ → ℕ → M (Unit {0})
  data_abort_vector address status = do
    hexstring hw address
    uart_puts hw (codes ": ABORT caused by")
    (if bit_and status dabt_ext_mask == 0
        then pure tt
        else uart_puts hw (codes " ::external abort"))
    (if bit_and status dabt_wnr_mask == 0
        then uart_puts hw (codes " ::read access")
        else uart_puts hw (codes " ::write access"))
    fault_status (bit_and status dabt_fs_mask)
    uart_puts hw (codes "\n")

-- The fault statuses of the architecture that the kernel knows, with their texts.
abbrev pub faults : List (ℕ × List ℕ)
faults =
    (0x1, codes " ::alignment fault")
    ∷ (0x4, codes " ::instruction cache maitenance fault")
    ∷ (0xc, codes " ::translation table walk sync external abort L1")
    ∷ (0xe, codes " ::translation table walk sync external abort L2")
    ∷ (0x40c, codes " ::translation table walk sync pality error L1")
    ∷ (0x40e, codes " ::translation table walk sync pality error L2")
    ∷ (0x5, codes " ::translation fault(MMU Fault) in section")
    ∷ (0x7, codes " ::translation fault(MMU Fault) in page")
    ∷ (0x3, codes " ::access flag fault(MMU Fault) in section")
    ∷ (0x6, codes " ::access flag fault(MMU Fault) in page")
    ∷ (0x9, codes " ::domain fault(MMU Fault) in section")
    ∷ (0xb, codes " ::domain fault(MMU Fault) in page")
    ∷ (0xd, codes " ::access policy fault(MMU Fault) in section")
    ∷ (0xf, codes " ::access policy fault(MMU Fault) in page")
    ∷ []

-- The text of a status, none if it is not in the list.
abbrev pub text_of : List (ℕ × List ℕ) → ℕ → List ℕ
text_of [] fs = []
text_of ((k, text) ∷ rest) fs = if fs == k then text else text_of rest fs

-- The report on an abort at `address`.
abbrev pub abort_text : ℕ → ℕ → List ℕ
abort_text address status =
    hexstring_text address
    ++ (codes ": ABORT caused by"
        ++ ((if bit_and status 0x1000 == 0 then [] else codes " ::external abort")
            ++ ((if bit_and status 0x8000 == 0
                  then codes " ::read access"
                  else codes " ::write access")
                ++ (text_of faults (bit_and status 0x40f) ++ 0x0a ∷ []))))

module _ {hw : Hw} (live : Drains hw) where
  ladder : List (ℕ × List ℕ) → ℕ → M (Unit {0})
  ladder [] fs = pure tt
  ladder ((k, text) ∷ rest) fs = if fs == k then uart_puts hw text else ladder rest fs

  -- A text on a quiet machine, then the rest on one that is quiet still.
  Says : List ℕ → M (Unit {0}) → Type 0
  Says text c = (m : Machine) → IsQuiet m → Prints (wires text) c m

  Says-then : (s r : List ℕ) (c k : M (Unit {0})) → Says s c → Says r k → Says (s ++ r) (c >> k)
  unfolding Says
  Says-then s r c k first rest m quiet = rw (wires-append s r) (
      Prints-seq (wires s) (wires r) c k m (first m quiet)
        λ t. rest (with_bus m (wires s) t) (record { free = quiet.free; calm = quiet.calm }))

  Says-nothing : Says [] (pure tt)
  unfolding Says wires
  Says-nothing m quiet = Prints-pure m

  Says-puts : (s : List ℕ) → Says s (uart_puts hw s)
  unfolding Says
  Says-puts s m quiet = (console-Prints hw m s 0 live quiet).0

  Says-hex : (d : ℕ) → Says (hexstring_text d) (hexstring hw d)
  unfolding Says
  Says-hex d m quiet = (console-Prints hw m [] d live quiet).1

  Says-if :
      (b : Bool) (s r : List ℕ) (c k : M (Unit {0}))
      → Says s c
      → Says r k
      → Says (if b then s else r) (if b then c else k)
  Says-if true s r c k first other = first
  Says-if false s r c k first other = other

  Says-ladder : (list : List (ℕ × List ℕ)) (fs : ℕ) → Says (text_of list fs) (ladder list fs)
  unfolding ladder
  Says-ladder [] fs = Says-nothing
  Says-ladder ((k, text) ∷ rest) fs =
      Says-if (fs == k) text (text_of rest fs) (uart_puts hw text) (ladder rest fs) (Says-puts text)
        (Says-ladder rest fs)

  data_abort_vector-Says :
      (address status : ℕ) → Says (abort_text address status) (data_abort_vector hw address status)
  unfolding data_abort_vector fault_status ladder
  data_abort_vector-Says address status =
      Says-then (hexstring_text address) _ (hexstring hw address) _ (Says-hex address) (
        Says-then (codes ": ABORT caused by") _ (uart_puts hw (codes ": ABORT caused by")) _
          (Says-puts (codes ": ABORT caused by"))
          (Says-then _ _ _ _
            (Says-if (bit_and status 0x1000 == 0) [] (codes " ::external abort") (pure tt)
              (uart_puts hw (codes " ::external abort")) Says-nothing
              (Says-puts (codes " ::external abort")))
            (Says-then _ _ _ _
              (Says-if (bit_and status 0x8000 == 0) (codes " ::read access")
                (codes " ::write access") (uart_puts hw (codes " ::read access"))
                (uart_puts hw (codes " ::write access")) (Says-puts (codes " ::read access"))
                (Says-puts (codes " ::write access")))
              (Says-then _ _ _ _ (Says-ladder faults (bit_and status 0x40f))
                (Says-puts (codes "\n"))))))

-- With a console that can be used, the handler of data aborts returns for every address and status,
-- has written exactly its report to the UART, each newline as a newline and a carriage return, and
-- has changed nothing else: the address, whether the abort was external, read or write access, and
-- the text of the fault status, none for a status that is not in the list.
pub data_abort_vector-Prints :
    (hw : Hw) (address status : ℕ) (m : Machine)
    → Drains hw
    → IsQuiet m
    → Prints (wires (abort_text address status)) (data_abort_vector hw address status) m
unfolding Says
data_abort_vector-Prints hw address status m live quiet =
    data_abort_vector-Says live address status m quiet
