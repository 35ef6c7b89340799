-- ===== src/Config/LimaYaml/Scripts.antt =====
-- The scripts of pkg/config/lima_config_applier.go for the first boot.
use finch.Prelude.{String, ◌<>◌}

abbrev soci_header : String
soci_header = "# snapshotter provisioning script: soci"

abbrev emulation_header : String
emulation_header = "# cross-arch tools"

abbrev pub wsl_header : String
wsl_header = "# wsl disk format script"

-- `sociInstallationScriptFormat` with its six texts
unfoldable pub soci_script : String → String → String → String → String → String
soci_script release url sha service docker_config =
    soci_header <> "\n" <> "if [ ! -f /usr/local/bin/soci ]; then\n" <> "\t# download soci\n"
    <> "\tset -e\n" <> "\n" <> "\t# pull release tarball\n" <> "\trelease_tarball=\"" <> release
    <> "\"\n" <> "\tcurl --retry 2 --retry-max-time 120 -OL \"" <> url <> "\"\n" <> "\n"
    <> "\t# validate shasum\n"
    <> "\t(sha256sum \"${release_tarball}\" | cut -d ' ' -f 1 | grep -xq \"^" <> sha
    <> "$\") || \\\n"
    <> "\t  (echo \"error: shasum verification failed for SOCI release tarball\" && rm -f \"${release_tarball}\" && exit 1)\n"
    <> "\n" <> "\t# move to usr/local/bin\n"
    <> "\ttar -C /usr/local/bin -xvf ${release_tarball} soci soci-snapshotter-grpc\n" <> "\n"
    <> "\t# install as a systemd service\n" <> "\tcurl --retry 2 --retry-max-time 120 -OL \""
    <> service <> "\"\n" <> "\tmv soci-snapshotter.service /usr/local/lib/systemd/system/\n"
    <> "\tln -s /usr/local/lib/systemd/system/soci-snapshotter.service /etc/systemd/system/multi-user.target.wants/\n"
    <> "\trestorecon -v /usr/local/lib/systemd/system/soci-snapshotter.service\n"
    <> "\tsystemctl daemon-reload\n"
    <> "\tsudo mkdir -p /usr/local/lib/systemd/system/soci-snapshotter.service.d/\n"
    <> "\tprintf '[Unit]\\nPartOf=containerd.service\\n\\n[Service]\\nKillSignal=SIGTERM\\n' | sudo tee /usr/local/lib/systemd/system/soci-snapshotter.service.d/finch.conf\n"
    <> docker_config <> "\n" <> "\tsystemctl enable --now soci-snapshotter\n" <> "fi\n" <> "\n"
    <> "# changing containerd config, this seems to get reset on every VM stop/start\n"
    <> "if ! grep -q soci /etc/containerd/config.toml; then\n"
    <> "\tprintf '    [proxy_plugins.soci]\\n      type = \"snapshot\"\\n      address = \"/run/soci-snapshotter-grpc/soci-snapshotter-grpc.sock\"\\n' >> /etc/containerd/config.toml\n"
    <> "fi\n" <> "\n" <> "sudo systemctl restart containerd.service\n"

-- `qemuPkgInstallationScript` with its header
unfoldable pub emulation_script : String
emulation_script =
    emulation_header <> "\n" <> "#!/bin/bash\n" <> "qemu_pkgs=\"\"\n"
    <> "if [ ! -f /usr/bin/qemu-aarch64-static ]; then\n"
    <> "\tqemu_pkgs=\"$qemu_pkgs qemu-user-static-aarch64\"\n"
    <> "elif [ ! -f /usr/bin/qemu-aarch64-static ]; then\n"
    <> "\tqemu_pkgs=\"$qemu_pkgs qemu-user-static-arm\"\n"
    <> "elif [ ! -f  /usr/bin/qemu-aarch64-static ]; then\n"
    <> "\tqemu_pkgs=\"$qemu_pkgs qemu-user-static-x86\"\n" <> "fi\n" <> "\n"
    <> "if [[ $qemu_pkgs ]]; then\n"
    <> "\tdnf install -y --setopt=install_weak_deps=False ${qemu_pkgs}\n" <> "fi\n"

-- Where the service of soci finds Docker's configuration on macOS.
unfoldable pub docker_config_setup : String
docker_config_setup =
    "\tsudo mkdir -p /etc/systemd/system/soci-snapshotter.service.d/\n"
    <> "\tprintf '[Service]\\nEnvironment=\"DOCKER_CONFIG=$HOME/.finch-vm-config\"\\n' | sudo tee /etc/systemd/system/soci-snapshotter.service.d/override.conf"

unfoldable pub wsl_disk_script : String
wsl_disk_script =
    wsl_header <> "\n" <> "#!/bin/bash\n" <> "mkdir -p /mnt/lima-finch\n"
    <> "mount \"$(blkid -s TYPE -t LABEL=FinchDataDisk -o device)\" /mnt/lima-finch\n"
