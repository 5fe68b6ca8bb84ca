-- ===== src/Lib.antt =====
-- A verification library for ostiole, a debugger for Arm targets over SWD and JTAG.
--
-- The program is a stack. Package swd turns register accesses into bit sequences on a two-wire
-- line; package jtag turns scans into TMS and TDI levels and tracks the state of the TAP
-- controllers; probes (cmsisdap, jlink, ftdi) implement the wires; dap, coresight and
-- target/cortexm are built on the register accesses; usb finds and opens the probes. This library
-- models swd with its batches, the simulated wire that the tests of swd run against, jtag,
-- coresight, the configuration descriptors of usb, and the planner of the transactions of dap.
--
-- Base holds the shared names, lists measured by native numbers, bits of a number and bits of a
-- byte buffer (setBit and bitAt of swd/sequence.go and swd/transfer.go). Go models errors
-- (errors.Is, errors.Join, %w), methods that change their receiver and may fail, and their
-- postconditions. A byte is a number; a buffer is a list of numbers.
--
-- Swd: Swd/Types is the state of swd/connection.go and swd/options.go. Swd/Sequence is
-- swd/sequence.go, with its bits in Swd/Sequence/Packing. Swd/Frame has the pure part of
-- swd/transfer.go (headers, parity, ACKs, the tracked DP bank) and Swd/Transfer its traffic.
-- Swd/Dormant is swd/dormant.go and swd/sequences.go. Swd/Lifecycle and Swd/Lifecycle/Overrun are
-- swd/lifecycle.go: connect, release, bootstrap and changeOverrun under those names in snake case.
-- Swd/Env is what the package uses and does not implement: a wire, contexts and the clock; each
-- call of a context or of the wire moves the clock, so a context may end between any two of them.
-- Swd/Invariant states what holds of a connection between calls; Swd/Transfer/Keeps,
-- Swd/Transfer/Invariant and Swd/Lifecycle/{Keeps,Leads,Identity,Restore,Contract} carry it
-- through the methods. Swd/Transfer/Guard is about the guards of a register access, and
-- Swd/Lifecycle/{Shown,Setting} about what Release shows of ORUNDETECT. Swd/Sim is
-- swd/sim/wire.go, with its helpers in Swd/Sim/Frames, and
-- Swd/Sim/{Header,Stream,Access,Fixed,Exchange,Refinement} lead to the refinement of a register
-- access by its frame on the wire.
--
-- Swd/Batch is the commit of swd/batch.go, and Swd/Batch/Queue its operations, their results and
-- the steps that need no wire. Swd/Batch/Settled and Swd/Batch/Takes count the resolved results of a
-- list of operations and of a method; Swd/Batch/Resolves follows a commit, and Swd/Batch/Contract
-- says what it promises.
--
-- Jtag: Jtag/State is jtag/state.go and Jtag/Path its shortest paths. Jtag/Env is the wire,
-- contexts and the clock, and the state of a connection. Jtag/Conn is jtag/conn.go and
-- jtag/scan.go; Jtag/Tracking follows the state through chunked calls. Jtag/Measure, Jtag/Discover,
-- Jtag/Layout, Jtag/Chain and Jtag/Tap are the files of those names. Swd/Examples and Jtag/Examples
-- hold concrete inputs, and Swd/Session runs a session over the simulated wire.
--
-- Coresight: Coresight/Component, Coresight/Rom and Coresight/Walk are the files of
-- those names in coresight. The reader of target memory is the parameter Reader.
-- Coresight/Offsets is about the addresses that entries name; Coresight/Tree states what holds of a
-- walk, and Coresight/Keeps and Coresight/Bounded carry it through the steps.
--
-- Usb: Usb/Types, Usb/Endpoint and Usb/Parser are the parser of usb/configuration.go and Usb/Active
-- the reads around it, over the parameter Device. Usb/Indexed says what the parser has put together
-- at any time, Usb/Parsed carries it through the descriptors, Usb/Contract says what a parsed
-- configuration is, Usb/Snapshot what the active one is, and Usb/Termination is about the loop.
-- Go/Returns takes a sequence that has returned apart.
--
-- Dap: Dap/Register has the registers and requests of dap/types.go, dap/ap.go and dap/wait.go, and
-- Dap/Plan is swdTxnPlanner of dap/txn.go. Dap/Accesses describes without the planner what a port
-- does with requests and what operations ask for, and Dap/Results which results the steps deliver.
-- Dap/Selects follows SELECT, Dap/Reaches and Dap/Banks compare the two for one operation on an AP
-- and on the DP, and Dap/Contract for a whole plan. Dap/Segments is the cutting of a range of
-- memory into transfers in dap/memap_block.go, and Dap/Tiles says what the segments are.
--
-- Bounds and fuel: the loop of parity32 runs 32 rounds, enough for a 32-bit value. The search for
-- a TAP path has 18 rounds, one more than there are states. The chunks of a JTAG transfer have one
-- round a bit, and each clocks at least one. Discovery has one round for each TAP that its limit
-- allows and one more. The retries of Connect have the count of the code. The chunks of a batch
-- have one round for each operation. A walk over ROM tables has two rounds for each entry that its
-- limit admits and one more, since a round reads an entry or leaves a table. The loop over
-- descriptors has a round for each byte, and that of the planner one for each operation. The loops
-- that cut a range have a round for each byte or word.
--
-- Not modelled: nil receivers and nil contexts; the values formatted into error texts; negative
-- numbers where the code rejects them (a nonpositive duration or count is 0); the overflow of the
-- 64-bit call counter; the transports of usb; the probes; the execution of a plan and the rest of
-- dap; target/cortexm and the commands.
pub mod Base
pub mod Go
pub mod Swd
pub mod Jtag
pub mod Coresight
pub mod Usb
pub mod Dap
