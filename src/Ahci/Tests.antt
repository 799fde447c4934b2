-- ===== src/Ahci/Tests.antt =====
-- Runs of the disk driver on a small controller, and the theorems at concrete inputs.
use kernel_old.Base.{
  ℕ, ◌+◌, ◌-◌, ◌*◌, ◌/◌, ◌%◌, ◌≡◌, refl, false, ◌&&◌, some, ltb, leb, ◌==◌, if◌then◌else◌,
}
use kernel_old.Ahci.{
  Port, find_cmd_slot, command_for, FromDisk, ToDisk, check_type, AhciPort, probe_loop,
  ahci_probe_ports, ahci_get_dev,
}
use kernel_old.Ahci.Commands.{lba_of, count_of, find_cmd_slot-first}
use kernel_old.Ahci.ReadBack.{ReadBack}
use kernel_old.Ahci.Ports.{Usable, ahci_get_dev-ahci_probe_ports}

-- A port that is idle, and a controller that does what a command says.
abbrev idle : Port
idle = record {
  sata_active = 0;
  cmd_issue = 0;
  task_file = λ _. 0;
  issue = λ _. 0;
  status = λ _. 0;
}

abbrev read_disk : FromDisk
read_disk ok c sectors buf j =
    if ltb j (512 * count_of c.fis) then sectors (lba_of c.fis + j / 512) (j % 512) else buf j

abbrev write_disk : ToDisk
write_disk ok c buf sectors s j =
    if leb (lba_of c.fis) s && ltb s (lba_of c.fis + count_of c.fis)
    then buf ((s - lba_of c.fis) * 512 + j)
    else sectors s j

-- A controller with ports 0, 2 and 5, of which 2 has a disk and 5 a packet device.
abbrev stat_regs : ℕ → ℕ
stat_regs i = if i == 0 then 0 else 0x113

abbrev sig_regs : ℕ → ℕ
sig_regs i = if i == 5 then 0xeb140101 else 0x00000101

abbrev packet_port : AhciPort
packet_port = record { hba_port = 5; type = 4; num = 1 }

second_device : ahci_get_dev 1 (ahci_probe_ports 0x25 stat_regs sig_regs) ≡ some packet_port
unfolding ahci_get_dev ahci_probe_ports probe_loop check_type
second_device = refl

ahci_get_dev-ahci_probe_ports_example :
    (packet_port.num ≡ 1) × Usable 0x25 stat_regs sig_regs packet_port
ahci_get_dev-ahci_probe_ports_example =
    ahci_get_dev-ahci_probe_ports 0x25 stat_regs sig_regs 1 packet_port second_device

-- A port whose slots are all in use still gives slot 0.
busy_slot :
    find_cmd_slot (record {
      sata_active = 0xffffffff;
      cmd_issue = 0xffffffff;
      task_file = λ _. 0;
      issue = λ _. 0;
      status = λ _. 0;
    })
    ≡ some 0
busy_slot = find_cmd_slot-first (record {
  sata_active = 0xffffffff;
  cmd_issue = 0xffffffff;
  task_file = λ _. 0;
  issue = λ _. 0;
  status = λ _. 0;
})

-- The command for 9 sectors asks for 4,608 bytes, more than the page of the port's buffer.
beyond_page : (command_for 0 9 4096 false).byte_cnt ≡ 9 * 512 - 1
unfolding command_for
beyond_page = refl
