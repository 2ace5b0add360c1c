-- ===== src/Unix/Sample.antt =====
-- A kernel for tests: no call fails, and what arrives is always the same.
use hw.Prelude.{ℕ, true, List, some}
use hw.Unix.Calls.{Call, Forked}
use hw.Unix.Buffers.{unset, fill}
use hw.Unix.Runs.{Kernel}

abbrev pub delivering : List ℕ → Kernel
delivering bytes n (Call.socket f k) = some 3
delivering bytes n (Call.set_option fd o) = true
delivering bytes n (Call.bind fd a) = true
delivering bytes n (Call.listen fd m) = true
delivering bytes n (Call.accept fd) = some (4, 9)
delivering bytes n (Call.inet_pton s) = true
delivering bytes n (Call.connect fd a) = true
delivering bytes n (Call.read fd m) = some bytes
delivering bytes n (Call.write fd b) = true
delivering bytes n (Call.recvfrom fd m) = some (bytes, 9)
delivering bytes n (Call.sendto fd b a) = true
delivering bytes n (Call.close fd) = tt
delivering bytes n (Call.unlink p) = tt
delivering bytes n (Call.select a b) = some (true, true)
delivering bytes n (Call.thread fd) = true
delivering bytes n Call.fork = Forked.parent 7
delivering bytes n (Call.exec f args) = tt
delivering bytes n Call.wait = tt
delivering bytes n (Call.wait_for pid) = some 0
delivering bytes n (Call.open_file p) = some 3
delivering bytes n (Call.mkfifo p) = true
delivering bytes n (Call.queue_open q) = true
delivering bytes n (Call.queue_send t m) = true
delivering bytes n (Call.queue_receive t) = some (fill (unset 1024) bytes)
delivering bytes n Call.queue_close = tt
delivering bytes n Call.queue_remove = true
delivering bytes n (Call.memory_attach p) = true
delivering bytes n Call.memory_peek = fill (unset 1024) bytes
delivering bytes n (Call.memory_poke s) = tt
delivering bytes n Call.memory_detach = tt
delivering bytes n Call.memory_remove = tt
delivering bytes n Call.pipe = some (5, 6)
delivering bytes n (Call.dup2 fd m) = tt
delivering bytes n (Call.get_line m) = some bytes
delivering bytes n (Call.say f s) = tt
delivering bytes n (Call.say_address f a) = tt
delivering bytes n (Call.perror s) = tt
delivering bytes n (Call.sleep m) = tt
delivering bytes n (Call.sigaction s) = true
delivering bytes n (Call.sigprocmask s) = true
delivering bytes n Call.sigwait = true
